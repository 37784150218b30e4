-- ===== src/Buddy/Census.antt =====
-- How many free blocks hold an address: what each operation of the free lists changes of it.
use native.Mathlib.Nat.{two-pow-succ}
use rust_so_kernel.Prelude.{
  ℕ, zero, suc, ◌+◌, ◌^◌, ◌≡◌, ◌≤◌, ◌&&◌, refl, arith, List, [], ◌∷◌, leb, ltb, if◌then◌else◌,
  sum_below, sum_below_change, ==→eq, ==_refl, ne→==, some, ◌==◌, Bool-cases, some_inj, ap, inl,
  inr, subst, Option-cases, List-cases, sym,
}
use rust_so_kernel.Prelude.Bits.{bit_test}
use rust_so_kernel.Buddy.{
  BuddyAllocator, num_orders, order_to_index, list_of, with_list, bitmap_pos, bitmap_set,
  bitmap_clear, add_block, remove_from_head, remove_arbitrary_block, unlink,
}

-- 1 for an address inside a block, and else 0.
unfoldable pub inside : ℕ → ℕ → ℕ → ℕ
inside order a x = if leb a x && ltb x (a + 2 ^ order) then 1 else 0

unfoldable pub blocks_with : ℕ → List ℕ → ℕ → ℕ
blocks_with order [] x = 0
blocks_with order (a ∷ blocks) x = inside order a x + blocks_with order blocks x

-- How many of the free blocks of all orders hold the address.
unfoldable pub owned : BuddyAllocator → ℕ → ℕ
owned s x = sum_below num_orders (λ i. blocks_with (12 + i) (s.free_lists i) x)

halves :
    (a p x : ℕ)
    → (if leb a x && ltb x (a + (p + p)) then 1 else 0)
      ≡ (if leb a x && ltb x (a + p) then 1 else 0)
        + (if leb (a + p) x && ltb x (a + p + p) then 1 else 0)
halves a p x = ground arith

pub inside-halves : (k a x : ℕ) → inside (suc k) a x ≡ inside k a x + inside k (a + 2 ^ k) x
unfolding inside
inside-halves k a x = rw (two-pow-succ k) (halves a (2 ^ k) x)

-- Replacing the list of one order changes the count by the difference of the two.
pub owned-with_list :
    (order : ℕ) (blocks : List ℕ) (s : BuddyAllocator) (x : ℕ)
    → 12 ≤ order
    → order ≤ 28
    → owned (with_list order blocks s) x + blocks_with order (list_of order s) x
      ≡ owned s x + blocks_with order blocks x
unfolding owned
owned-with_list order blocks s x low high =
    let f = λ (i : ℕ). blocks_with (12 + i) ((with_list order blocks s).free_lists i) x in
    let g = λ (i : ℕ). blocks_with (12 + i) (s.free_lists i) x in
    let k = order_to_index order in
    let back : 12 + k ≡ order = omega arith in
    let new : f k ≡ blocks_with order blocks x =
      rw (==_refl k) (ap (λ o. blocks_with o blocks x) back) in
    let old : g k ≡ blocks_with order (list_of order s) x =
      ap (λ o. blocks_with o (s.free_lists k) x) back in
    let change = sum_below_change num_orders k f g (omega arith) (λ j ne. rw (ne→== j k ne) refl) in
    omega (arith, change, new, old)

-- The bitmap has no part in the count.
pub owned-bitmap_clear :
    (order a : ℕ) (s : BuddyAllocator) (x : ℕ) → owned (bitmap_clear order a s) x ≡ owned s x
unfolding owned bitmap_clear
owned-bitmap_clear order a s x = elim (Option-cases (bitmap_pos order a)) [
  | inl e ↦ rw (bitmap_clear, e) refl
  | inr ((byte, bit), e) ↦ rw (bitmap_clear, e) refl
]

pub owned-bitmap_set :
    (order a : ℕ) (s t : BuddyAllocator) (x : ℕ)
    → bitmap_set order a s ≡ some t
    → owned t x ≡ owned s x
unfolding owned bitmap_set
owned-bitmap_set order a s t x h = elim (Option-cases (bitmap_pos order a)) [
  | inl e ↦ ap (λ u. owned u x) (sym (some_inj (rw (bitmap_set, e) at h)))
  | inr ((byte, bit), e) ↦ (elim (Bool-cases (bit_test bit (s.bitmap byte))) [
    | inl set ↦ absurd (let h' = rw (bitmap_set, e, set) at h in cc)
    | inr clear ↦ ap (λ u. owned u x) (sym (some_inj (rw (bitmap_set, e, clear) at h)))
  ])
]

pub owned-add_block :
    (order a : ℕ) (s t : BuddyAllocator) (x : ℕ)
    → 12 ≤ order
    → order ≤ 28
    → add_block order a s ≡ some t
    → owned t x ≡ owned s x + inside order a x
unfolding add_block blocks_with
owned-add_block order a s t x low high h =
    let set = owned-bitmap_set order a (with_list order (a ∷ list_of order s) s) t x h in
    omega (arith, set, owned-with_list order (a ∷ list_of order s) s x low high)

pub owned-remove_from_head :
    (order a : ℕ) (next : List ℕ) (s : BuddyAllocator) (x : ℕ)
    → 12 ≤ order
    → order ≤ 28
    → list_of order s ≡ a ∷ next
    → owned (remove_from_head order a next s) x + inside order a x ≡ owned s x
unfolding remove_from_head blocks_with
owned-remove_from_head order a next s x low high h =
    let clear = owned-bitmap_clear order a (with_list order next s) x in
    let held : blocks_with order (list_of order s) x ≡ inside order a x + blocks_with order next x =
      rw h refl in
    omega (arith, clear, held, owned-with_list order next s x low high)

blocks_with-unlink :
    (n order a : ℕ) (blocks left : List ℕ) (x : ℕ)
    → unlink n a blocks ≡ some left
    → blocks_with order left x + inside order a x ≡ blocks_with order blocks x
unfolding unlink blocks_with
blocks_with-unlink zero order a blocks left x h = absurd (cc)
blocks_with-unlink (suc n) order a [] left x h = absurd (cc)
blocks_with-unlink (suc n) order a (b ∷ blocks) left x h = elim (Bool-cases (b == a)) [
  | inl same ↦
      let e : left ≡ blocks = sym (some_inj (rw (unlink, same) at h)) in
      let held : inside order b x ≡ inside order a x =
        ap (λ c. inside order c x) (==→eq b a same) in
      rw e (omega (arith, held))
  | inr other ↦ (elim (Option-cases (unlink n a blocks)) [
    | inl e ↦ absurd (let h' = rw (unlink, other, e) at h in cc)
    | inr (rest, e) ↦
        let l : left ≡ b ∷ rest = sym (some_inj (rw (unlink, other, e) at h)) in
        rw l (omega (arith, blocks_with-unlink n order a blocks rest x e))
  ])
]

-- A removal takes the block out where it answers `true`, and else leaves the lists alone.
pub owned-remove_arbitrary_block :
    (order a : ℕ) (s : BuddyAllocator) (x : ℕ)
    → 12 ≤ order
    → order ≤ 28
    → owned (remove_arbitrary_block order a s).1 x
        + (if (remove_arbitrary_block order a s).0 then inside order a x else 0)
      ≡ owned s x
unfolding remove_arbitrary_block blocks_with
owned-remove_arbitrary_block order a s x low high = elim (List-cases (list_of order s)) [
  | inl e ↦ rw (remove_arbitrary_block, e) (omega (arith, owned-bitmap_clear order a s x))
  | inr (head, blocks, e) ↦ (elim (Bool-cases (head == a)) [
    | inl same ↦
        let at_head : list_of order s ≡ a ∷ blocks =
          subst (λ (c : ℕ). list_of order s ≡ c ∷ blocks) (==→eq head a same) e in
        rw (remove_arbitrary_block, e, same)
          (owned-remove_from_head order a blocks s x low high at_head)
    | inr other ↦ (elim (Option-cases (unlink 4096 a blocks)) [
      | inl gone ↦
          rw (remove_arbitrary_block, e, other, gone)
            (omega (arith, owned-bitmap_clear order a s x))
      | inr (left, cut) ↦
          let clear = owned-bitmap_clear order a (with_list order (head ∷ left) s) x in
          let change = owned-with_list order (head ∷ left) s x low high in
          let less = blocks_with-unlink 4096 order a blocks left x cut in
          let held : blocks_with order (list_of order s) x
              ≡ inside order head x + blocks_with order blocks x =
            rw e refl in
          rw (remove_arbitrary_block, e, other, cut) (omega (arith, clear, change, less, held))
    ])
  ])
]
