-- ===== src/Frames/Owners.antt =====
-- The counts against the number of owners that each frame has.
use rust_so_kernel.Prelude.{
  ℕ, ◌+◌, ◌-◌, ◌≡◌, ◌<◌, refl, ap, arith, min, ==_refl, ne→==, lt→ltb, update, ℕ_discrete,
}
use rust_so_kernel.Frames.{max_frames, frame_idx, no_refs, set_ref, inc_ref, dec_ref, get_ref}

-- The counts and the owners after the kernel's calls: a frame without an owner is allocated, one of
-- fewer than 255 owners is shared, and an owner releases its frame.
pub data Reached : (ℕ → ℕ) → (ℕ → ℕ) → Type 0 where
  boot : Reached no_refs (λ _. 0)
  allocates :
      (frame : ℕ) (refs owners : ℕ → ℕ)
      → Reached refs owners
      → frame_idx frame < max_frames
      → owners (frame_idx frame) ≡ 0
      → Reached (set_ref frame 1 refs) (update owners (frame_idx frame) 1)
  shares :
      (frame : ℕ) (refs owners : ℕ → ℕ)
      → Reached refs owners
      → frame_idx frame < max_frames
      → owners (frame_idx frame) < 255
      → Reached
          (inc_ref frame refs)
          (update owners (frame_idx frame) (owners (frame_idx frame) + 1))
  releases :
      (frame : ℕ) (refs owners : ℕ → ℕ)
      → Reached refs owners
      → frame_idx frame < max_frames
      → 0 < owners (frame_idx frame)
      → Reached
          (dec_ref frame refs).1
          (update owners (frame_idx frame) (owners (frame_idx frame) - 1))

update-eq :
    (f g : ℕ → ℕ) (k v w : ℕ)
    → v ≡ w
    → ((j : ℕ) → f j ≡ g j)
    → (j : ℕ) → update f k v j ≡ update g k w j
update-eq f g k v w e h j = elim (ℕ_discrete j k) [
  | yes same ↦ rw (same, ==_refl k) e
  | no ne ↦ rw (ne→== j k ne) (h j)
]

pub Reached-eq : (refs owners : ℕ → ℕ) → Reached refs owners → (j : ℕ) → refs j ≡ owners j
unfolding no_refs set_ref inc_ref dec_ref
Reached-eq refs owners Reached.boot j = refl
Reached-eq refs owners (Reached.allocates frame before held r lt none_yet) j =
    rw (set_ref, lt→ltb (frame_idx frame) max_frames lt)
      (update-eq before held (frame_idx frame) 1 1 refl (Reached-eq before held r) j)
Reached-eq refs owners (Reached.shares frame before held r lt few) j =
    let same = Reached-eq before held r (frame_idx frame) in
    rw (inc_ref, lt→ltb (frame_idx frame) max_frames lt)
      (update-eq before held (frame_idx frame) (min (before (frame_idx frame) + 1) 255)
        (held (frame_idx frame) + 1) (omega (arith, same, few)) (Reached-eq before held r) j)
Reached-eq refs owners (Reached.releases frame before held r lt some_left) j =
    let same = Reached-eq before held r (frame_idx frame) in
    rw (dec_ref, lt→ltb (frame_idx frame) max_frames lt)
      (update-eq before held (frame_idx frame) (before (frame_idx frame) - 1)
        (held (frame_idx frame) - 1) (omega (arith, same)) (Reached-eq before held r) j)

-- After any allocations, shares below 255 owners and releases, the count of a frame is the number
-- of its owners, and a release returns how many are left: 0, upon which the caller frees the frame,
-- just for the last owner.
pub dec_ref-get_ref :
    (frame : ℕ) (refs owners : ℕ → ℕ)
    → Reached refs owners
    → frame_idx frame < max_frames
    → (get_ref frame refs ≡ owners (frame_idx frame))
      × ((dec_ref frame refs).0 ≡ owners (frame_idx frame) - 1)
      × (get_ref frame (dec_ref frame refs).1 ≡ owners (frame_idx frame) - 1)
unfolding dec_ref get_ref
dec_ref-get_ref frame refs owners r lt =
    let same = Reached-eq refs owners r (frame_idx frame) in
    let inside = lt→ltb (frame_idx frame) max_frames lt in
    (
      rw (get_ref, inside) same,
      rw (dec_ref, inside) (ap (λ k. k - 1) same),
      rw (dec_ref, get_ref, inside, ==_refl (frame_idx frame)) (ap (λ k. k - 1) same),
    )
