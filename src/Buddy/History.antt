-- ===== src/Buddy/History.antt =====
-- The allocator from boot on, with the blocks that are in use.
use rust_so_kernel.Prelude.{
  ℕ, zero, suc, ◌+◌, ◌-◌, ◌*◌, ◌/◌, ◌≡◌, ◌≤◌, refl, arith, List, [], ◌∷◌, ◌++◌, All, Option, some,
  subst, sym, ◌∙◌, some_inj, some_pair, sum_below, false, inl, inr, Option-cases,
}
use rust_so_kernel.Prelude.Bits.{bit_test}
use rust_so_kernel.Buddy.{
  BuddyAllocator, new_buddy, bitmap_pos, is_free, allocate, deallocate, add_region,
}
use rust_so_kernel.Buddy.Census.{inside, blocks_with, owned}
use rust_so_kernel.Buddy.Merging.{IsAligned}
use rust_so_kernel.Buddy.Service.{IsSound, Served, allocate-Served, deallocate-IsSound}
use rust_so_kernel.Buddy.Region.{among, add_region-IsSound}

-- How many of the blocks in use, of their orders and addresses, hold an address.
unfoldable pub in_use : List (ℕ × ℕ) → ℕ → ℕ
in_use [] x = 0
in_use ((order, a) ∷ live) x = inside order a x + in_use live x

-- The states from boot on: regions come from the memory map, none of them handed over before, and
-- every block released is one in use, of the order that it was requested with.
pub data Reached : BuddyAllocator → List (ℕ × ℕ) → Type 0 where
  boots : Reached new_buddy []
  gains :
      (start end : ℕ) (s t : BuddyAllocator) (live : List (ℕ × ℕ))
      → Reached s live
      → IsAligned 12 start
      → ((x : ℕ) → owned s x + in_use live x + among start ((end - start) / 4096 * 4096) x ≤ 1)
      → add_region start end s ≡ some t
      → Reached t live
  requests :
      (order a : ℕ) (s t : BuddyAllocator) (live : List (ℕ × ℕ))
      → Reached s live
      → 12 ≤ order
      → order ≤ 28
      → allocate order s ≡ some (some a, t)
      → Reached t ((order, a) ∷ live)
  releases :
      (order a : ℕ) (before after : List (ℕ × ℕ)) (s t : BuddyAllocator)
      → Reached s (before ++ (order, a) ∷ after)
      → deallocate a order s ≡ some t
      → Reached t (before ++ after)

-- A block as `allocate` returns it.
abbrev pub IsBlock : ℕ × ℕ → Type 0
IsBlock b = (12 ≤ b.0) × (b.0 ≤ 28) × IsAligned b.0 b.1

-- Free blocks and blocks in use do not overlap, neither with each other nor among themselves.
pub record IsApart (s : BuddyAllocator) (live : List (ℕ × ℕ)) : Type 0 where
  pub sound : IsSound s
  pub blocks : All IsBlock live
  pub apart : (x : ℕ) → owned s x + in_use live x ≤ 1

in_use-append :
    (before after : List (ℕ × ℕ)) (x : ℕ)
    → in_use (before ++ after) x ≡ in_use before x + in_use after x
unfolding in_use
in_use-append [] after x = omega arith
in_use-append ((order, a) ∷ before) after x = omega (arith, in_use-append before after x)

All-split :
    (before after : List (ℕ × ℕ)) (b : ℕ × ℕ)
    → All IsBlock (before ++ b ∷ after)
    → IsBlock b × All IsBlock (before ++ after)
All-split [] after b h = h
All-split (c ∷ before) after b h =
    let (here, rest) = All-split before after b h.1 in (here, (h.0, rest))

-- What a block handed out is known to be.
Served-given :
    {order : ℕ} {s : BuddyAllocator} {o : Option (Option ℕ × BuddyAllocator)} (a : ℕ)
    (t : BuddyAllocator)
    → Served order s o
    → o ≡ some (some a, t)
    → IsSound t × IsAligned order a × ((x : ℕ) → owned t x + inside order a x ≡ owned s x)
Served-given {order} {s} a t (Served.given b u sound fits census) h =
    let (same, out) = some_pair h in
    let e : b ≡ a = some_inj same in
    (
      subst IsSound out sound,
      subst (IsAligned order) e fits,
      λ x.
          subst (λ (c : ℕ). owned t x + inside order c x ≡ owned s x) e
            (subst (λ (v : BuddyAllocator). owned v x + inside order b x ≡ owned s x) out
              (census x)),
    )
Served-given a t (Served.exhausted none_left) h = absurd (let (same, out) = some_pair h in cc)

no_bit : (k : ℕ) → bit_test k 0 ≡ false
unfolding bit_test
no_bit zero = refl
no_bit (suc k) = no_bit k

never_free : (o b : ℕ) → is_free o b new_buddy ≡ false
unfolding is_free new_buddy
never_free o b = elim (Option-cases (bitmap_pos o b)) [
  | inl e ↦ rw (is_free, e) refl
  | inr ((byte, bit), e) ↦ rw (is_free, e) (no_bit bit)
]

pub new_buddy-IsSound : IsSound new_buddy
unfolding new_buddy owned blocks_with sum_below
new_buddy-IsSound = record {
  backed = record {
    aligned = λ o low high. tt;
    backed = λ o b low high fits free. absurd (let never = never_free o b in cc);
  };
  disjoint = λ x. omega arith;
}

-- In every state reached from boot by adding regions, requests and releases of blocks in use, no
-- address is in two blocks, be they free or in use, every block in use is aligned to its size, and the
-- allocator is sound.
pub Reached-IsApart : (s : BuddyAllocator) (live : List (ℕ × ℕ)) → Reached s live → IsApart s live
unfolding in_use
Reached-IsApart s live Reached.boots = record {
  sound = new_buddy-IsSound;
  blocks = tt;
  apart = λ x. omega (arith, new_buddy-IsSound.disjoint x);
}
Reached-IsApart s live (Reached.gains start end s' t l r fits fresh h) =
    let p = Reached-IsApart s' l r in
    let (u, e, sound, census) =
      add_region-IsSound start end s' fits p.sound (λ x. omega (arith, fresh x)) in
    let same : u ≡ t = some_inj (sym e ∙ h) in
    record {
      sound = subst IsSound same sound;
      blocks = p.blocks;
      apart = λ x.
          subst (λ (v : BuddyAllocator). owned v x + in_use l x ≤ 1) same
            (omega (arith, census x, fresh x));
    }
Reached-IsApart s live (Reached.requests order a s' t l r low high h) =
    let p = Reached-IsApart s' l r in
    let (sound, fits, census) = Served-given a t (allocate-Served order s' low high p.sound) h in
    record {
      sound = sound;
      blocks = ((low, high, fits), p.blocks);
      apart = λ x. omega (arith, census x, p.apart x);
    }
Reached-IsApart s live (Reached.releases order a before after s' t r h) =
    let p = Reached-IsApart s' (before ++ (order, a) ∷ after) r in
    let ((low, high, fits), rest) = All-split before after (order, a) p.blocks in
    let all = λ (x : ℕ). in_use-append before ((order, a) ∷ after) x in
    let left = λ (x : ℕ). in_use-append before after x in
    let (u, e, sound, census) =
      deallocate-IsSound a order s' low high fits p.sound (λ x. omega (arith, all x, p.apart x)) in
    let same : u ≡ t = some_inj (sym e ∙ h) in
    record {
      sound = subst IsSound same sound;
      blocks = rest;
      apart = λ x.
          subst (λ (v : BuddyAllocator). owned v x + in_use (before ++ after) x ≤ 1) same
            (omega (arith, census x, all x, left x, p.apart x));
    }
