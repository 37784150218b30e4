-- ===== src/Buddy/Merging.antt =====
-- `deallocate` against the count of the free blocks that hold an address: merges lose nothing.
use native.Mathlib.Nat.{two-pow-succ, mul-div_left}
use rust_so_kernel.Prelude.{
  ℕ, zero, suc, ◌+◌, ◌-◌, ◌*◌, ◌/◌, ◌%◌, ◌^◌, ◌≡◌, ◌≤◌, refl, arith, true, false, min, ◌==◌, ==→eq,
  some, ap, inl, inr, subst, Bool-cases, sym, ◌∙◌,
}
use rust_so_kernel.Prelude.Bits.{pow_positive}
use rust_so_kernel.Buddy.{
  BuddyAllocator, is_free, buddy_of, remove_arbitrary_block, coalesce, deallocate,
}
use rust_so_kernel.Buddy.Census.{
  inside, owned, inside-halves, owned-add_block, owned-remove_arbitrary_block,
}

-- A block of the order may start at the address.
abbrev pub IsAligned : ℕ → ℕ → Type 0
IsAligned order a = (q : ℕ) × (a ≡ q * 2 ^ order)

-- Of a block and its buddy, the lower starts a block of twice the size and the other its upper half.
pub record IsMerge (order a : ℕ) : Type 0 where
  pub low : ℕ
  pub lower : min a (buddy_of a order) ≡ low
  pub aligned : IsAligned (suc order) low
  pub halves :
      (x : ℕ)
      → inside order a x + inside order (buddy_of a order) x
        ≡ inside order low x + inside order (low + 2 ^ order) x

double : (r p : ℕ) → (r * 2 + 1) * p ≡ r * (p + p) + p
double r p = omega arith

twice : (r p : ℕ) → r * 2 * p ≡ r * (p + p)
twice r p = omega arith

odd_block : (q p : ℕ) → q % 2 ≡ 1 → q * p ≡ q / 2 * (p + p) + p
odd_block q p h =
    let e : q ≡ q / 2 * 2 + 1 = omega arith in (ap (λ (k : ℕ). k * p) e ∙ double (q / 2) p)

even_block : (q p : ℕ) → q % 2 ≡ 0 → q * p ≡ q / 2 * (p + p)
even_block q p h =
    let e : q ≡ q / 2 * 2 = omega arith in (ap (λ (k : ℕ). k * p) e ∙ twice (q / 2) p)

buddy_odd :
    (q order : ℕ)
    → (q % 2 == 1) ≡ true
    → buddy_of (q * 2 ^ order) order ≡ q / 2 * (2 ^ order + 2 ^ order)
unfolding buddy_of
buddy_odd q order h =
    let odd = odd_block q (2 ^ order) (==→eq (q % 2) 1 h) in
    rw (buddy_of, mul-div_left q (pow_positive order), h) (omega (arith, odd))

buddy_even :
    (q order : ℕ)
    → (q % 2 == 1) ≡ false
    → buddy_of (q * 2 ^ order) order ≡ q * 2 ^ order + 2 ^ order
unfolding buddy_of
buddy_even q order h = rw (buddy_of, mul-div_left q (pow_positive order), h) refl

-- Whichever of the two a block is, the halves are its buddy and itself.
numbered-IsMerge : (order q : ℕ) → IsMerge order (q * 2 ^ order)
numbered-IsMerge order q = elim (Bool-cases (q % 2 == 1)) [
  | inl h ↦
      let odd = odd_block q (2 ^ order) (==→eq (q % 2) 1 h) in
      let low = q / 2 * (2 ^ order + 2 ^ order) in
      let other = buddy_odd q order h in
      record {
        low = low;
        lower = omega (arith, odd, other);
        aligned = (q / 2, ap (λ (p : ℕ). q / 2 * p) (sym (two-pow-succ order)));
        halves = λ x.
            omega
              (arith, ap (λ (c : ℕ). inside order c x) odd, ap (λ (c : ℕ). inside order c x) other);
      }
  | inr h ↦
      let even = even_block q (2 ^ order) (ground arith) in
      let other = buddy_even q order h in
      record {
        low = q * 2 ^ order;
        lower = omega (arith, other);
        aligned = (q / 2, even ∙ ap (λ (p : ℕ). q / 2 * p) (sym (two-pow-succ order)));
        halves = λ x. omega (arith, ap (λ (c : ℕ). inside order c x) other);
      }
]

pub buddy_of-IsMerge : (order a : ℕ) → IsAligned order a → IsMerge order a
buddy_of-IsMerge order a (q, e) = subst (IsMerge order) (sym e) (numbered-IsMerge order q)

-- What the loop leaves to be added: a block that may stand in the lists and that covers, with the
-- free blocks left, what the free blocks and the block freed covered.
pub record IsCoalesced (s : BuddyAllocator) (order a : ℕ) (r : ℕ × ℕ × BuddyAllocator)
    : Type 0 where
  pub at_least : order ≤ r.0
  pub at_most : r.0 ≤ 28
  pub aligned : IsAligned r.0 r.1
  pub census : (x : ℕ) → owned r.2 x + inside r.0 r.1 x ≡ owned s x + inside order a x

stays :
    (order a : ℕ) (s t : BuddyAllocator)
    → order ≤ 28
    → IsAligned order a
    → ((x : ℕ) → owned t x ≡ owned s x)
    → IsCoalesced s order a (order, a, t)
stays order a s t high fits same = record {
  at_least = omega arith;
  at_most = high;
  aligned = fits;
  census = λ x. omega (arith, same x);
}

merges :
    (order a : ℕ) (s t : BuddyAllocator) (r : ℕ × ℕ × BuddyAllocator)
    → IsAligned order a
    → ((x : ℕ) → owned t x + inside order (buddy_of a order) x ≡ owned s x)
    → IsCoalesced t (suc order) (min a (buddy_of a order)) r
    → IsCoalesced s order a r
merges order a s t r fits taken c =
    let m = buddy_of-IsMerge order a fits in
    record {
      at_least = omega (arith, c.at_least);
      at_most = c.at_most;
      aligned = c.aligned;
      census = λ x. omega (
        arith,
        c.census x,
        taken x,
        m.halves x,
        inside-halves order m.low x,
        ap (λ (b : ℕ). inside (suc order) b x) m.lower,
      );
    }

pub coalesce-IsCoalesced :
    (n order a : ℕ) (s : BuddyAllocator)
    → 12 ≤ order
    → order + n ≤ 28
    → IsAligned order a
    → IsCoalesced s order a (coalesce n order a s)
unfolding coalesce
coalesce-IsCoalesced zero order a s low high fits = stays order a s s (omega arith) fits (λ x. refl)
coalesce-IsCoalesced (suc n) order a s low high fits =
    let taken =
      λ (x : ℕ). owned-remove_arbitrary_block order (buddy_of a order) s x low (omega arith) in
    let m = buddy_of-IsMerge order a fits in
    elim (Bool-cases (is_free order (buddy_of a order) s)) [
      | inl free ↦ (elim (Bool-cases (remove_arbitrary_block order (buddy_of a order) s).0) [
        | inl found ↦
            let t = (remove_arbitrary_block order (buddy_of a order) s).1 in
            let next =
              coalesce-IsCoalesced n (suc order) (min a (buddy_of a order)) t (omega arith)
                (omega arith) (subst (IsAligned (suc order)) (sym m.lower) m.aligned) in
            rw (coalesce, free, found)
              (merges order a s t (coalesce n (suc order) (min a (buddy_of a order)) t) fits
                (λ x. rw found at (taken x)) next)
        | inr phantom ↦
            rw (coalesce, free, phantom)
              (stays order a s (remove_arbitrary_block order (buddy_of a order) s).1 (omega arith)
                fits (λ x. omega (arith, rw phantom at (taken x))))
      ])
      | inr busy ↦ rw (coalesce, busy) (stays order a s s (omega arith) fits (λ x. refl))
    ]

-- Freeing an aligned block of an order from 12 to 28 puts just its addresses in the free blocks,
-- whatever the merges with buddies do: every address is in as many free blocks as it was, and those
-- of the block in one more.
pub owned-deallocate :
    (a order : ℕ) (s t : BuddyAllocator) (x : ℕ)
    → 12 ≤ order
    → order ≤ 28
    → IsAligned order a
    → deallocate a order s ≡ some t
    → owned t x ≡ owned s x + inside order a x
unfolding deallocate
owned-deallocate a order s t x low high fits h =
    let c = coalesce-IsCoalesced (28 - order) order a s low (omega arith) fits in
    let r = coalesce (28 - order) order a s in
    omega
      (arith, c.census x, owned-add_block r.0 r.1 r.2 t x (omega (arith, c.at_least)) c.at_most h)
