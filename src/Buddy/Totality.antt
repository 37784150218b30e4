-- ===== src/Buddy/Totality.antt =====
-- The free lists hold no address twice, so that no block added is marked free already: splits and
-- additions do not halt.
use native.Mathlib.Nat.{two-pow-succ}
use mathlib.Core.Option
use rust_so_kernel.Prelude.{
  ℕ, zero, suc, ◌+◌, ◌*◌, ◌^◌, ◌≡◌, ◌≤◌, ◌<◌, refl, arith, Bool, true, false, List, [], ◌∷◌, some,
  ap, inl, inr, subst, Bool-cases, Option-cases, ◌∙◌, ◌==◌, ==→eq, sum_below, ℕ_discrete, update,
}
use rust_so_kernel.Prelude.Bits.{bit_test, bit_set, pow_positive}
use rust_so_kernel.Buddy.{
  BuddyAllocator, order_to_index, list_of, with_list, bitmap_pos, bitmap_set, is_free, add_block,
  split_loop,
}
use rust_so_kernel.Buddy.Census.{inside, blocks_with, owned, inside-halves, owned-add_block}
use rust_so_kernel.Buddy.Merging.{IsAligned}
use rust_so_kernel.Buddy.Backed.{listed, IsBacked, add_block-IsBacked}

pub inside_self : (order a : ℕ) → inside order a a ≡ 1
unfolding inside
inside_self order a = let p = pow_positive order in ground arith

listed-blocks_with :
    (order a : ℕ) (blocks : List ℕ) → listed a blocks ≡ true → 0 < blocks_with order blocks a
unfolding listed blocks_with
listed-blocks_with order a [] h = absurd (cc)
listed-blocks_with order a (b ∷ blocks) h = elim (Bool-cases (b == a)) [
  | inl same ↦
      let e : inside order b a ≡ 1 =
        ap (λ (c : ℕ). inside order c a) (==→eq b a same) ∙ inside_self order a in
      omega (arith, e)
  | inr other ↦ omega (arith, listed-blocks_with order a blocks (rw (listed, other) at h))
]

term_le : (n k : ℕ) (f : ℕ → ℕ) → k < n → f k ≤ sum_below n f
unfolding sum_below
term_le zero k f h = absurd (omega arith)
term_le (suc n) k f h = elim (ℕ_discrete k n) [
  | yes e ↦ rw e (omega arith)
  | no ne ↦ omega (arith, term_le n k f (omega arith))
]

listed-owned :
    (order a : ℕ) (s : BuddyAllocator)
    → 12 ≤ order
    → order ≤ 28
    → listed a (list_of order s) ≡ true
    → 0 < owned s a
unfolding owned
listed-owned order a s low high h =
    let k = order_to_index order in
    let back : 12 + k ≡ order = omega arith in
    let same : blocks_with (12 + k) (list_of order s) a ≡ blocks_with order (list_of order s) a =
      ap (λ (o : ℕ). blocks_with o (list_of order s) a) back in
    let part = term_le 17 k (λ (i : ℕ). blocks_with (12 + i) (s.free_lists i) a) (omega arith) in
    omega (arith, part, same, listed-blocks_with order a (list_of order s) h)

bitmap_set_of_clear :
    (order a : ℕ) (s : BuddyAllocator)
    → is_free order a s ≡ false
    → (t : BuddyAllocator) × (bitmap_set order a s ≡ some t)
unfolding bitmap_set is_free
bitmap_set_of_clear order a s h = elim (Option-cases (bitmap_pos order a)) [
  | inl e ↦ (s, rw (bitmap_set, e) refl)
  | inr ((byte, bit), e) ↦
      let clear : bit_test bit (s.bitmap byte) ≡ false = rw (is_free, e) at h in
      (
        record s { bitmap = update s.bitmap byte (bit_set bit (s.bitmap byte)) },
        rw (bitmap_set, e, clear) refl,
      )
]

not_free : (b : Bool) → ¬ (b ≡ true) → b ≡ false
not_free true h = absurd (h refl)
not_free false h = refl

-- A block whose first address is not free can be added.
pub add_block-IsAdded :
    (order a : ℕ) (s : BuddyAllocator)
    → 12 ≤ order
    → order ≤ 28
    → IsAligned order a
    → IsBacked s
    → owned s a ≡ 0
    → (t : BuddyAllocator) × (add_block order a s ≡ some t) × IsBacked t
unfolding add_block is_free
add_block-IsAdded order a s low high fits h gone =
    let u = with_list order (a ∷ list_of order s) s in
    let (t, e) = bitmap_set_of_clear order a u (
      not_free (is_free order a s) (λ free.
        let l = listed-owned order a s low high (h.backed order a low high fits free) in
        omega (arith, l, gone))) in
    (t, e, add_block-IsBacked order a s t low high fits h e)

twice : (q p : ℕ) → q * (p + p) ≡ q * 2 * p
twice q p = omega arith

twice_more : (q p : ℕ) → q * (p + p) + p ≡ (q * 2 + 1) * p
twice_more q p = omega arith

pub upper_half : (k a : ℕ) → IsAligned (suc k) a → IsAligned k a × IsAligned k (a + 2 ^ k)
upper_half k a (q, e) =
    let whole : a ≡ q * (2 ^ k + 2 ^ k) = e ∙ ap (λ (p : ℕ). q * p) (two-pow-succ k) in
    (
      (q * 2, whole ∙ twice q (2 ^ k)),
      (q * 2 + 1, ap (λ (b : ℕ). b + 2 ^ k) whole ∙ twice_more q (2 ^ k)),
    )

-- A split of a block that no free block meets.
pub split_loop-IsBacked :
    (n to_order a : ℕ) (s : BuddyAllocator)
    → 12 ≤ to_order
    → to_order + n ≤ 28
    → IsAligned (to_order + n) a
    → IsBacked s
    → ((x : ℕ) → owned s x + inside (to_order + n) a x ≤ 1)
    → (t : BuddyAllocator) × (split_loop n to_order a s ≡ some t)
      × IsBacked t
      × IsAligned to_order a
unfolding split_loop Option.bind
split_loop-IsBacked zero to_order a s low high fits h apart =
    (s, refl, h, subst (λ (k : ℕ). IsAligned k a) (omega arith) fits)
split_loop-IsBacked (suc n) to_order a s low high fits h apart =
    let k = to_order + n in
    let next : to_order + suc n ≡ suc k = omega arith in
    let (lower, upper) = upper_half k a (subst (λ (o : ℕ). IsAligned o a) next fits) in
    let whole = λ (x : ℕ). ap (λ (o : ℕ). inside o a x) next ∙ inside-halves k a x in
    let b = a + 2 ^ k in
    let clear : owned s b ≡ 0 = omega (arith, apart b, whole b, inside_self k b) in
    let (u, e, back) = add_block-IsAdded k b s (omega arith) (omega arith) upper h clear in
    let (t, done, backed, at) =
      split_loop-IsBacked n to_order a u low (omega arith) lower back (λ x.
        omega (arith, apart x, whole x, owned-add_block k b s u x (omega arith) (omega arith) e)) in
    (t, rw (split_loop, e) done, backed, at)
