-- ===== src/Ext2/Repair/Sweep.antt =====
-- ext2/src/repair.rs: the sweep of a bitmap clears the bits that are not in use, and no other.
use rust_so_kernel.Prelude.{
  ℕ, zero, suc, ◌+◌, ◌*◌, ◌<◌, ◌≤◌, ◌≡◌, ◌⊎◌, inl, inr, refl, sym, ◌∙◌, Bool, true, false, ◌&&◌,
  List, length, ◌==◌, arith, Bool-cases, ==→eq, ==_refl,
}
use rust_so_kernel.Ext2.{ok}
use rust_so_kernel.Ext2.Bitmap.{bit_is_set}
use rust_so_kernel.Ext2.Bitmap.Marks.{Marked, clear_bit-Marked, bit_at-ok}
use rust_so_kernel.Ext2.Repair.Passes.{sweep_loop}

-- The bitmap after a sweep of the `n` bits from `bit`.
pub record IsSwept (is_used : ℕ → Bool) (before : List ℕ) (bit n : ℕ) (after : List ℕ)
    : Type 0 where
  pub same_length : length after ≡ length before
  pub swept :
      (j : ℕ) → bit ≤ j → j < bit + n → bit_is_set after j ≡ (bit_is_set before j && is_used j)
  pub kept : (j : ℕ) → (j < bit) ⊎ (bit + n ≤ j) → bit_is_set after j ≡ bit_is_set before j

and_false : (b : Bool) → (b && false) ≡ false
and_false true = refl
and_false false = refl

module _ (is_used : ℕ → Bool) where
  -- A bit that is left, before the rest.
  left_bit :
      (before after : List ℕ) (bit n : ℕ)
      → bit_is_set before bit ≡ (bit_is_set before bit && is_used bit)
      → IsSwept is_used before (suc bit) n after
      → IsSwept is_used before bit (suc n) after
  left_bit before after bit n same s = record {
    same_length = s.same_length;
    swept = λ j h k. elim (Bool-cases (j == bit)) [
      | inl e ↦ let is : j ≡ bit = ==→eq _ _ e in rw is (s.kept bit (inl (omega arith)) ∙ same)
      | inr e ↦ s.swept j (ground arith) (omega arith)
    ];
    kept = λ j c. s.kept j (ground arith);
  }

  -- A bit that is cleared, before the rest.
  cleared_bit :
      (before cleared after : List ℕ) (bit n : ℕ)
      → Marked before bit false cleared
      → is_used bit ≡ false
      → IsSwept is_used cleared (suc bit) n after
      → IsSwept is_used before bit (suc n) after
  cleared_bit before cleared after bit n m unused s = record {
    same_length = s.same_length ∙ m.same_length;
    swept = λ j h k. elim (Bool-cases (j == bit)) [
      | inl e ↦
          let is : j ≡ bit = ==→eq _ _ e in
          rw is (
            s.kept bit (inl (omega arith))
            ∙ m.bits bit
            ∙ rw (==_refl bit, unused) (sym (and_false (bit_is_set before bit))))
      | inr e ↦ s.swept j (ground arith) (omega arith) ∙ rw (m.bits j, e)
    ];
    kept = λ j c.
        let apart : (j == bit) ≡ false = ground arith in
        s.kept j (ground arith) ∙ m.bits j ∙ rw apart;
  }

  -- The sweep of a group returns, on a bitmap with room for its bits: a bit of the range is set
  -- afterwards exactly if it was set and is in use, and the other bits stay.
  pub sweep_loop-IsSwept :
      (before : List ℕ) (n bit : ℕ)
      → bit + n ≤ length before * 8
      → (after : List ℕ) × (count : ℕ) × (sweep_loop is_used before bit n ≡ ok (after, count))
        × IsSwept is_used before bit n after
  unfolding sweep_loop
  sweep_loop-IsSwept before zero bit h = (
    before,
    0,
    refl,
    record { same_length = refl; swept = λ j a b. absurd (omega arith); kept = λ j c. refl },
  )
  sweep_loop-IsSwept before (suc n) bit h =
      let at = bit_at-ok before bit (omega arith) in
      elim (Bool-cases (bit_is_set before bit)) [
        | inr clear ↦
            let (after, count, runs, s) = sweep_loop-IsSwept before n (suc bit) (omega arith) in
            (after, count, rw (at, clear) runs, left_bit before after bit n (rw clear) s)
        | inl set' ↦ elim (Bool-cases (is_used bit)) [
          | inl used ↦
              let (after, count, runs, s) = sweep_loop-IsSwept before n (suc bit) (omega arith) in
              (
                after,
                count,
                rw (at, set', used) runs,
                left_bit before after bit n (rw (set', used)) s,
              )
          | inr unused ↦
              let (cleared, clears, m) = clear_bit-Marked before bit (omega arith) in
              let size = m.same_length in
              let (after, count, runs, s) = sweep_loop-IsSwept cleared n (suc bit) (omega arith) in
              (
                after,
                count + 1,
                rw (at, set', unused, clears, runs),
                cleared_bit before cleared after bit n m unused s,
              )
        ]
      ]
