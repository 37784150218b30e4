-- ===== src/Buddy/Service.antt =====
-- Requests and releases in whole: in a sound allocator neither halts the CPU, and both keep it sound.
use mathlib.Core.Option
use rust_so_kernel.Prelude.{
  ℕ, zero, suc, ◌+◌, ◌-◌, ◌≡◌, ◌≤◌, ◌<◌, arith, List, [], ◌∷◌, Option, none, some, ap, inl, inr,
  subst, Bool-cases, List-cases, min, ℕ_discrete, All,
}
use rust_so_kernel.Buddy.{
  BuddyAllocator, list_of, is_free, buddy_of, remove_from_head, remove_arbitrary_block, split_block,
  split_larger, allocate, coalesce, deallocate,
}
use rust_so_kernel.Buddy.Census.{inside, owned, owned-remove_from_head}
use rust_so_kernel.Buddy.Allocation.{owned-take}
use rust_so_kernel.Buddy.Merging.{IsAligned, coalesce-IsCoalesced, owned-deallocate}
use rust_so_kernel.Buddy.Backed.{
  IsBacked, remove_from_head-IsBacked, remove_arbitrary_block-IsBacked,
}
use rust_so_kernel.Buddy.Totality.{inside_self, split_loop-IsBacked, add_block-IsAdded}

-- No address is in two free blocks, blocks start where they may, and set bits have their blocks.
pub record IsSound (s : BuddyAllocator) : Type 0 where
  pub backed : IsBacked s
  pub disjoint : (x : ℕ) → owned s x ≤ 1

-- What a request for a block of an order comes to: a block taken out of the free ones, or nothing
-- and no change when no order from there up has a block. The CPU is not halted.
pub data Served (order : ℕ) (s : BuddyAllocator) : Option (Option ℕ × BuddyAllocator) → Type 0 where
  given :
      (a : ℕ) (t : BuddyAllocator)
      → IsSound t
      → IsAligned order a
      → ((x : ℕ) → owned t x + inside order a x ≡ owned s x)
      → Served order s (some (some a, t))
  exhausted : ((k : ℕ) → order ≤ k → k ≤ 28 → list_of k s ≡ []) → Served order s (some (none, s))

-- A block taken from the list of an order and split down.
taken-Served :
    (larger order a : ℕ) (next : List ℕ) (s : BuddyAllocator)
    → 12 ≤ order
    → order ≤ larger
    → larger ≤ 28
    → IsSound s
    → list_of larger s ≡ a ∷ next
    → Served order s (
        Option.map
          (λ t. (some a, t))
          (split_block larger a order (remove_from_head larger a next s)))
unfolding split_block
taken-Served larger order a next s low le high h e =
    let u = remove_from_head larger a next s in
    let back : larger ≡ order + (larger - order) = omega arith in
    let fits = (subst (All (IsAligned larger)) e (h.backed.aligned larger (omega arith) high)).0 in
    let apart = λ (x : ℕ). owned-remove_from_head larger a next s x (omega arith) high e in
    let whole = λ (x : ℕ). ap (λ (k : ℕ). inside k a x) back in
    let (t, done, backed, at) =
      split_loop-IsBacked (larger - order) order a u low (omega arith)
        (subst (λ (k : ℕ). IsAligned k a) back fits)
        (remove_from_head-IsBacked larger a next s (omega arith) high h.backed e)
        (λ x. omega (arith, apart x, whole x, h.disjoint x)) in
    let census = λ (x : ℕ). owned-take larger order a next s t x low le high e done in
    rw (split_block, done)
      (given a t (record { backed = backed; disjoint = λ x. omega (arith, census x, h.disjoint x) })
        at census)

split_larger-Served :
    (n larger order : ℕ) (s : BuddyAllocator)
    → 12 ≤ order
    → order ≤ larger
    → larger + n ≡ 29
    → IsSound s
    → ((k : ℕ) → order ≤ k → k < larger → list_of k s ≡ [])
    → Served order s (split_larger n larger order s)
unfolding split_larger
split_larger-Served zero larger order s low le high h none_below =
    exhausted (λ k from to. none_below k from (omega arith))
split_larger-Served (suc n) larger order s low le high h none_below =
    elim (List-cases (list_of larger s)) [
      | inl e ↦
          rw (split_larger, e)
            (split_larger-Served n (suc larger) order s low (omega arith) (omega arith) h
              (λ k from to. elim (ℕ_discrete k larger) [
                | yes same ↦ rw same e
                | no ne ↦ none_below k from (omega arith)
              ]))
      | inr (a, next, e) ↦
          rw (split_larger, e) (taken-Served larger order a next s low le (omega arith) h e)
    ]

pub allocate-Served :
    (order : ℕ) (s : BuddyAllocator)
    → 12 ≤ order
    → order ≤ 28
    → IsSound s
    → Served order s (allocate order s)
unfolding allocate
allocate-Served order s low high h = elim (List-cases (list_of order s)) [
  | inl e ↦
      rw (allocate, e)
        (split_larger-Served (28 - order) (suc order) order s low (omega arith) (omega arith) h
          (λ k from to. (let same : k ≡ order = omega arith in rw same e)))
  | inr (a, next, e) ↦
      let t = remove_from_head order a next s in
      let census = λ (x : ℕ). owned-remove_from_head order a next s x low high e in
      rw (allocate, e)
        (given a t
          (record {
            backed = remove_from_head-IsBacked order a next s low high h.backed e;
            disjoint = λ x. omega (arith, census x, h.disjoint x);
          })
          (subst (All (IsAligned order)) e (h.backed.aligned order low high)).0 census)
]

coalesce-IsBacked :
    (n order a : ℕ) (s : BuddyAllocator)
    → 12 ≤ order
    → order + n ≤ 28
    → IsBacked s
    → IsBacked (coalesce n order a s).2
unfolding coalesce
coalesce-IsBacked zero order a s low high h = h
coalesce-IsBacked (suc n) order a s low high h =
    let b = buddy_of a order in
    let next = remove_arbitrary_block-IsBacked order b s low (omega arith) h in
    elim (Bool-cases (is_free order b s)) [
      | inl free ↦ (elim (Bool-cases (remove_arbitrary_block order b s).0) [
        | inl found ↦
            rw (coalesce, free, found)
              (coalesce-IsBacked n (suc order) (min a b) (remove_arbitrary_block order b s).1
                (omega arith) (omega arith) next)
        | inr phantom ↦ rw (coalesce, free, phantom) next
      ])
      | inr busy ↦ rw (coalesce, busy) h
    ]

-- In a sound allocator, the release of an aligned block of an order from 12 to 28 with no address in
-- a free block never halts the CPU; it leaves a sound allocator, in which every address is in as
-- many free blocks as before and those of the block in one more.
pub deallocate-IsSound :
    (a order : ℕ) (s : BuddyAllocator)
    → 12 ≤ order
    → order ≤ 28
    → IsAligned order a
    → IsSound s
    → ((x : ℕ) → owned s x + inside order a x ≤ 1)
    → (t : BuddyAllocator) × (deallocate a order s ≡ some t)
      × IsSound t
      × ((x : ℕ) → owned t x ≡ owned s x + inside order a x)
unfolding deallocate
deallocate-IsSound a order s low high fits h apart =
    let c = coalesce-IsCoalesced (28 - order) order a s low (omega arith) fits in
    let r = coalesce (28 - order) order a s in
    let clear : owned r.2 r.1 ≡ 0 = omega (arith, c.census r.1, apart r.1, inside_self r.0 r.1) in
    let (t, e, backed) =
      add_block-IsAdded r.0 r.1 r.2 (omega (arith, c.at_least)) c.at_most c.aligned
        (coalesce-IsBacked (28 - order) order a s low (omega arith) h.backed) clear in
    let census = λ (x : ℕ). owned-deallocate a order s t x low high fits e in
    (t, e, record { backed = backed; disjoint = λ x. omega (arith, census x, apart x) }, census)
