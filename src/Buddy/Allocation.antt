-- ===== src/Buddy/Allocation.antt =====
-- `allocate` against the count of the free blocks that hold an address, and its answer `None`.
use mathlib.Core.Option
use rust_so_kernel.Prelude.{
  ℕ, zero, suc, ◌+◌, ◌-◌, ◌^◌, ◌≡◌, ◌≤◌, arith, List, ◌∷◌, Option, none, some, ap, inl, inr,
  Option-cases, List-cases, sym, some_pair, some_inj,
}
use rust_so_kernel.Buddy.{
  BuddyAllocator, list_of, add_block, remove_from_head, split_loop, split_block, split_larger,
  allocate,
}
use rust_so_kernel.Buddy.Census.{
  inside, owned, inside-halves, owned-add_block, owned-remove_from_head,
}

-- The halves that a split gives up, with the block kept, are the block split.
owned-split_loop :
    (n to_order a : ℕ) (s t : BuddyAllocator) (x : ℕ)
    → 12 ≤ to_order
    → to_order + n ≤ 28
    → split_loop n to_order a s ≡ some t
    → owned t x + inside to_order a x ≡ owned s x + inside (to_order + n) a x
unfolding split_loop Option.bind
owned-split_loop zero to_order a s t x low high h =
    let same : owned t x ≡ owned s x = ap (λ (u : BuddyAllocator). owned u x) (sym (some_inj h)) in
    let whole : inside (to_order + 0) a x ≡ inside to_order a x =
      ap (λ (k : ℕ). inside k a x) (omega arith) in
    omega (arith, same, whole)
owned-split_loop (suc n) to_order a s t x low high h =
    elim (Option-cases (add_block (to_order + n) (a + 2 ^ (to_order + n)) s)) [
      | inl e ↦ absurd (let h' = rw (split_loop, e) at h in cc)
      | inr (u, e) ↦
          let rest =
            owned-split_loop n to_order a u t x low (omega arith) (rw (split_loop, e) at h) in
          let added =
            owned-add_block (to_order + n) (a + 2 ^ (to_order + n)) s u x (omega arith)
              (omega arith) e in
          let whole : inside (to_order + suc n) a x ≡ inside (suc (to_order + n)) a x =
            ap (λ (k : ℕ). inside k a x) (omega arith) in
          omega (arith, rest, added, whole, inside-halves (to_order + n) a x)
    ]

-- A block is taken out of the list of its order and split down to the order asked for.
pub owned-take :
    (larger order a : ℕ) (next : List ℕ) (s t : BuddyAllocator) (x : ℕ)
    → 12 ≤ order
    → order ≤ larger
    → larger ≤ 28
    → list_of larger s ≡ a ∷ next
    → split_block larger a order (remove_from_head larger a next s) ≡ some t
    → owned t x + inside order a x ≡ owned s x
unfolding split_block
owned-take larger order a next s t x low le high e h =
    let back : order + (larger - order) ≡ larger = omega arith in
    let split =
      owned-split_loop (larger - order) order a (remove_from_head larger a next s) t x low
        (omega arith) h in
    let whole : inside (order + (larger - order)) a x ≡ inside larger a x =
      ap (λ (k : ℕ). inside k a x) back in
    omega (arith, split, whole, owned-remove_from_head larger a next s x (omega arith) high e)

none_is_not_some : {a : ℕ} → ◌≡◌ {A = Option ℕ} none (some a) → ⊥
none_is_not_some h = cc

owned-split_larger :
    (n larger order a : ℕ) (s t : BuddyAllocator) (x : ℕ)
    → 12 ≤ order
    → order ≤ larger
    → larger + n ≤ 29
    → split_larger n larger order s ≡ some (some a, t)
    → owned t x + inside order a x ≡ owned s x
unfolding split_larger
owned-split_larger zero larger order a s t x low le high h =
    absurd (none_is_not_some (some_pair h).0)
owned-split_larger (suc n) larger order a s t x low le high h =
    elim (List-cases (list_of larger s)) [
      | inl e ↦
          owned-split_larger n (suc larger) order a s t x low (omega arith) (omega arith)
            (rw (split_larger, e) at h)
      | inr (b, next, e) ↦
          (elim (Option-cases (split_block larger b order (remove_from_head larger b next s))) [
            | inl gone ↦ absurd (let h' = rw (split_larger, e, gone) at h in cc)
            | inr (u, split) ↦
                let (same, out) = some_pair (rw (split_larger, e, split) at h) in
                let held = owned-take larger order b next s u x low le (omega arith) e split in
                let e' : owned t x ≡ owned u x = ap (λ (v : BuddyAllocator). owned v x) (sym out) in
                let same' : inside order a x ≡ inside order b x =
                  ap (λ (c : ℕ). inside order c x) (sym (some_inj same)) in
                omega (arith, e', same', held)
          ])
    ]

-- What an allocation hands out leaves the free blocks, and nothing else does: every address is in as
-- many free blocks as before, those of the block returned in one fewer.
pub owned-allocate :
    (order a : ℕ) (s t : BuddyAllocator) (x : ℕ)
    → 12 ≤ order
    → order ≤ 28
    → allocate order s ≡ some (some a, t)
    → owned t x + inside order a x ≡ owned s x
unfolding allocate
owned-allocate order a s t x low high h = elim (List-cases (list_of order s)) [
  | inl e ↦
      owned-split_larger (28 - order) (suc order) order a s t x low (omega arith) (omega arith)
        (rw (allocate, e) at h)
  | inr (b, next, e) ↦
      let (same, out) = some_pair (rw (allocate, e) at h) in
      let held = owned-remove_from_head order b next s x low high e in
      let e' : owned t x ≡ owned (remove_from_head order b next s) x =
        ap (λ (v : BuddyAllocator). owned v x) (sym out) in
      let same' : inside order a x ≡ inside order b x =
        ap (λ (c : ℕ). inside order c x) (sym (some_inj same)) in
      omega (arith, e', same', held)
]
