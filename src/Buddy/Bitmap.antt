-- ===== src/Buddy/Bitmap.antt =====
-- The flat bitmap: no two blocks share a bit, so that a bit changes for its own block only.
use native.Mathlib.Nat.{mul-div_left, div-lt_iff_lt-mul}
use rust_so_kernel.Prelude.{
  ℕ, zero, suc, ◌+◌, ◌-◌, ◌*◌, ◌/◌, ◌%◌, ◌^◌, ◌≡◌, ◌≤◌, ◌<◌, ◌⊎◌, refl, arith, true, false, some,
  ap, inl, inr, subst, Bool-cases, Option-cases, sym, ◌∙◌, leb, update, ==_refl, ne→==, some_inj,
  some_pair, ℕ_discrete, dec_lt,
}
use rust_so_kernel.Prelude.Bits.{
  bit_test, bit_set, bit_clear, bit_test-bit_set, bit_test-bit_clear, pow_add, pow_positive,
}
use rust_so_kernel.Buddy.{
  BuddyAllocator, max_phys_addr, min_order, order_to_index, bitmap_offsets, bitmap_pos, bitmap_set,
  bitmap_clear, is_free,
}
use rust_so_kernel.Buddy.Merging.{IsAligned}

-- The bytes of an order's bits.
abbrev bytes_of : ℕ → ℕ
bytes_of i = (max_phys_addr / 2 ^ (min_order + i) + 7) / 8

offsets_apart : (i j : ℕ) → i < j → bitmap_offsets i + bytes_of i ≤ bitmap_offsets j
unfolding bitmap_offsets
offsets_apart i zero h = absurd (omega arith)
offsets_apart i (suc j) h = elim (ℕ_discrete i j) [
  | yes e ↦ rw e (omega arith)
  | no ne ↦ omega (arith, offsets_apart i j (omega arith))
]

-- The tracked range is a whole number of blocks of every order.
whole_blocks : (order : ℕ) → order ≤ 28 → max_phys_addr / 2 ^ order * 2 ^ order ≡ max_phys_addr
whole_blocks order h =
    let k : 29 ≡ 29 - order + order = omega arith in
    let e : 2 ^ 29 ≡ 2 ^ (29 - order) * 2 ^ order =
      ap (λ (k : ℕ). 2 ^ k) k ∙ pow_add (29 - order) order in
    let d : max_phys_addr / 2 ^ order ≡ 2 ^ (29 - order) =
      ap (λ (m : ℕ). m / 2 ^ order) e ∙ mul-div_left (2 ^ (29 - order)) (pow_positive order) in
    ap (λ (m : ℕ). m * 2 ^ order) d ∙ sym e

number_lt :
    (order a : ℕ) → order ≤ 28 → a < max_phys_addr → a / 2 ^ order < max_phys_addr / 2 ^ order
number_lt order a h lt =
    (div-lt_iff_lt-mul (pow_positive order)).1
      (subst (λ (m : ℕ). a < m) (sym (whole_blocks order h)) lt)

-- What a position tells of its block.
record IsAt (order a byte bit : ℕ) : Type 0 where
  tracked : a < max_phys_addr
  in_byte : byte ≡ bitmap_offsets (order_to_index order) + a / 2 ^ order / 8
  in_bit : bit ≡ a / 2 ^ order % 8

bitmap_pos-IsAt :
    (order a byte bit : ℕ) → bitmap_pos order a ≡ some (byte, bit) → IsAt order a byte bit
unfolding bitmap_pos
bitmap_pos-IsAt order a byte bit h = elim (Bool-cases (leb max_phys_addr a)) [
  | inl out ↦ absurd (let h' = rw (bitmap_pos, out) at h in cc)
  | inr within ↦
      let (same, left) = some_pair (rw (bitmap_pos, within) at h) in
      record { tracked = ground arith; in_byte = sym same; in_bit = sym left }
]

number_back : (order a : ℕ) → IsAligned order a → a / 2 ^ order * 2 ^ order ≡ a
number_back order a (q, e) =
    let d : a / 2 ^ order ≡ q =
      ap (λ (m : ℕ). m / 2 ^ order) e ∙ mul-div_left q (pow_positive order) in
    ap (λ (m : ℕ). m * 2 ^ order) d ∙ sym e

byte_lt : (b n : ℕ) → b < n → b / 8 < (n + 7) / 8
byte_lt b n h = omega arith

later_byte :
    (start size later byte b c : ℕ)
    → start + size ≤ later
    → byte ≡ start + b
    → byte ≡ later + c
    → b < size
    → ⊥
later_byte start size later byte b c h e e' lt = omega arith

same_order :
    (order a b byte bit : ℕ)
    → IsAligned order a
    → IsAligned order b
    → IsAt order a byte bit
    → IsAt order b byte bit
    → a ≡ b
same_order order a b byte bit fits fits' at at' =
    let number : a / 2 ^ order ≡ b / 2 ^ order =
      omega (arith, at.in_byte, at.in_bit, at'.in_byte, at'.in_bit) in
    sym (number_back order a fits)
    ∙ ap (λ (m : ℕ). m * 2 ^ order) number
    ∙ number_back order b fits'

lower_order :
    (o1 a1 o2 a2 byte bit : ℕ)
    → 12 ≤ o1
    → o1 < o2
    → o2 ≤ 28
    → IsAt o1 a1 byte bit
    → IsAt o2 a2 byte bit
    → ⊥
lower_order o1 a1 o2 a2 byte bit low lt high at at' =
    let apart = offsets_apart (order_to_index o1) (order_to_index o2) (omega arith) in
    let back : 12 + order_to_index o1 ≡ o1 = omega arith in
    let size : bytes_of (order_to_index o1) ≡ (max_phys_addr / 2 ^ o1 + 7) / 8 =
      ap (λ (k : ℕ). (max_phys_addr / 2 ^ k + 7) / 8) back in
    let small = number_lt o1 a1 (omega arith) at.tracked in
    let slot : a1 / 2 ^ o1 / 8 < (max_phys_addr / 2 ^ o1 + 7) / 8 =
      byte_lt (a1 / 2 ^ o1) (max_phys_addr / 2 ^ o1) small in
    later_byte (bitmap_offsets (order_to_index o1)) (bytes_of (order_to_index o1))
      (bitmap_offsets (order_to_index o2)) byte (a1 / 2 ^ o1 / 8) (a2 / 2 ^ o2 / 8) apart at.in_byte
      at'.in_byte (omega (arith, slot, size))

-- Two blocks that may stand in the lists share a position only when they are the same.
position_inj :
    (o1 a1 o2 a2 byte bit : ℕ)
    → 12 ≤ o1
    → o1 ≤ 28
    → IsAligned o1 a1
    → 12 ≤ o2
    → o2 ≤ 28
    → IsAligned o2 a2
    → IsAt o1 a1 byte bit
    → IsAt o2 a2 byte bit
    → (o1 ≡ o2) × (a1 ≡ a2)
position_inj o1 a1 o2 a2 byte bit low1 high1 fits1 low2 high2 fits2 at1 at2 = elim (dec_lt o1 o2) [
  | yes lt ↦ absurd (lower_order o1 a1 o2 a2 byte bit low1 lt high2 at1 at2)
  | no ge ↦ (elim (dec_lt o2 o1) [
    | yes gt ↦ absurd (lower_order o2 a2 o1 a1 byte bit low2 gt high1 at2 at1)
    | no le ↦
        let e : o1 ≡ o2 = omega arith in
        (
          e,
          same_order o2 a1 a2 byte bit (subst (λ (o : ℕ). IsAligned o a1) e fits1) fits2
              (subst (λ (o : ℕ). IsAt o a1 byte bit) e at1) at2,
        )
  ])
]

bit_after_set :
    (m : ℕ → ℕ) (byte0 bit0 byte bit : ℕ)
    → bit_test bit (update m byte0 (bit_set bit0 (m byte0)) byte) ≡ true
    → ((byte ≡ byte0) × (bit ≡ bit0)) ⊎ (bit_test bit (m byte) ≡ true)
bit_after_set m byte0 bit0 byte bit h = elim (ℕ_discrete byte byte0) [
  | no ne ↦ inr (rw (ne→== byte byte0 ne) at h)
  | yes e ↦ (elim (ℕ_discrete bit bit0) [
    | yes e' ↦ inl (e, e')
    | no ne ↦
        let h' =
          rw (e, ==_refl byte0, bit_test-bit_set bit0 bit (m byte0), ne→== bit bit0 ne) at h in
        inr (rw e h')
  ])
]

bit_after_clear :
    (m : ℕ → ℕ) (byte0 bit0 byte bit : ℕ)
    → bit_test bit (update m byte0 (bit_clear bit0 (m byte0)) byte) ≡ true
    → bit_test bit (m byte) ≡ true
bit_after_clear m byte0 bit0 byte bit h = elim (ℕ_discrete byte byte0) [
  | no ne ↦ rw (ne→== byte byte0 ne) at h
  | yes e ↦
      let h' = rw (e, ==_refl byte0, bit_test-bit_clear bit0 bit (m byte0)) at h in
      (elim (ℕ_discrete bit bit0) [
        | yes e' ↦ absurd (let h2 = rw (e', ==_refl bit0) at h' in cc)
        | no ne ↦ rw e (rw (ne→== bit bit0 ne) at h')
      ])
]

-- A set bit was set before or is the one of the block added.
pub is_free-bitmap_set :
    (order a o b : ℕ) (s t : BuddyAllocator)
    → 12 ≤ order
    → order ≤ 28
    → IsAligned order a
    → 12 ≤ o
    → o ≤ 28
    → IsAligned o b
    → bitmap_set order a s ≡ some t
    → is_free o b t ≡ true
    → ((o ≡ order) × (b ≡ a)) ⊎ (is_free o b s ≡ true)
unfolding bitmap_set is_free
is_free-bitmap_set order a o b s t low high fits low' high' fits' h free =
    elim (Option-cases (bitmap_pos o b)) [
      | inl e ↦ absurd (let h' = rw (is_free, e) at free in cc)
      | inr ((byte, bit), e) ↦ (elim (Option-cases (bitmap_pos order a)) [
        | inl out ↦
            let same : s ≡ t = some_inj (rw (bitmap_set, out) at h) in
            inr (subst (λ (u : BuddyAllocator). is_free o b u ≡ true) (sym same) free)
        | inr ((byte0, bit0), e0) ↦ (elim (Bool-cases (bit_test bit0 (s.bitmap byte0))) [
          | inl set ↦ absurd (let h' = rw (bitmap_set, e0, set) at h in cc)
          | inr clear ↦
              let m = update s.bitmap byte0 (bit_set bit0 (s.bitmap byte0)) in
              let same : t.bitmap ≡ m =
                ap (λ (u : BuddyAllocator). u.bitmap)
                  (sym (some_inj (rw (bitmap_set, e0, clear) at h))) in
              let now : bit_test bit (m byte) ≡ true =
                subst (λ (f : ℕ → ℕ). bit_test bit (f byte) ≡ true) same
                  (rw (is_free, e) at free) in
              (elim (bit_after_set s.bitmap byte0 bit0 byte bit now) [
                | inl (eb, ei) ↦
                    let there = bitmap_pos-IsAt o b byte bit e in
                    let there' = subst (λ (n : ℕ). IsAt o b n bit) eb there in
                    inl (
                      position_inj o b order a byte0 bit0 low' high' fits' low high fits
                        (subst (λ (n : ℕ). IsAt o b byte0 n) ei there')
                        (bitmap_pos-IsAt order a byte0 bit0 e0))
                | inr old ↦ inr (rw (is_free, e) old)
              ])
        ])
      ])
    ]

-- A bit set after another is cleared was set before, and the one cleared is not set.
pub is_free-bitmap_clear :
    (order a o b : ℕ) (s : BuddyAllocator)
    → is_free o b (bitmap_clear order a s) ≡ true
    → is_free o b s ≡ true
unfolding bitmap_clear is_free
is_free-bitmap_clear order a o b s free = elim (Option-cases (bitmap_pos o b)) [
  | inl e ↦ absurd (let h' = rw (is_free, e) at free in cc)
  | inr ((byte, bit), e) ↦ (elim (Option-cases (bitmap_pos order a)) [
    | inl out ↦ rw (bitmap_clear, out) at free
    | inr ((byte0, bit0), e0) ↦
        rw (is_free, e)
          (bit_after_clear s.bitmap byte0 bit0 byte bit (rw (bitmap_clear, is_free, e, e0) at free))
  ])
]

cleared :
    (m : ℕ → ℕ) (byte bit : ℕ) → bit_test bit (update m byte (bit_clear bit (m byte)) byte) ≡ false
cleared m byte bit = rw (==_refl byte, bit_test-bit_clear bit bit (m byte), ==_refl bit) refl

pub is_free-bitmap_clear_self :
    (order a : ℕ) (s : BuddyAllocator) → is_free order a (bitmap_clear order a s) ≡ false
unfolding bitmap_clear is_free
is_free-bitmap_clear_self order a s = elim (Option-cases (bitmap_pos order a)) [
  | inl e ↦ rw (is_free, e) refl
  | inr ((byte, bit), e) ↦ rw (is_free, e, bitmap_clear, e) (cleared s.bitmap byte bit)
]
