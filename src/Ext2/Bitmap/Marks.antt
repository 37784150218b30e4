-- ===== src/Ext2/Bitmap/Marks.antt =====
-- ext2/src/bitmap.rs: what `set_bit` and `clear_bit` change.
use rust_so_kernel.Prelude.{
  ℕ, zero, suc, ◌*◌, ◌/◌, ◌%◌, ◌<◌, ◌≡◌, ◌≢◌, refl, sym, ap, some, Bool, true, false, List, [], ◌∷◌,
  length, get_or, get_elem?, set, length-set, lt→ltb, ◌==◌, if◌then◌else◌, ==→eq, Bool-cases, inl,
  inr, arith,
}
use rust_so_kernel.Prelude.Bits.{bit_test, bit_set, bit_clear, bit_test-bit_set, bit_test-bit_clear}
use rust_so_kernel.Ext2.{ok}
use rust_so_kernel.Ext2.Bitmap.{bit_at, bit_is_set, set_bit, clear_bit}

get_elem?-or : (xs : List ℕ) (i : ℕ) → i < length xs → get_elem? xs i ≡ some (get_or xs i 0)
get_elem?-or [] i h = absurd (omega arith)
get_elem?-or (x ∷ xs) zero h = refl
get_elem?-or (x ∷ xs) (suc i) h = get_elem?-or xs i (omega arith)

get_elem?-set_self : (xs : List ℕ) (i v : ℕ) → i < length xs → get_elem? (set xs i v) i ≡ some v
get_elem?-set_self [] i v h = absurd (omega arith)
get_elem?-set_self (x ∷ xs) zero v h = refl
get_elem?-set_self (x ∷ xs) (suc i) v h = get_elem?-set_self xs i v (omega arith)

get_elem?-set_ne : (xs : List ℕ) (i j v : ℕ) → i ≢ j → get_elem? (set xs i v) j ≡ get_elem? xs j
get_elem?-set_ne [] i j v h = refl
get_elem?-set_ne (x ∷ xs) zero zero v h = absurd (h refl)
get_elem?-set_ne (x ∷ xs) zero (suc j) v h = refl
get_elem?-set_ne (x ∷ xs) (suc i) zero v h = refl
get_elem?-set_ne (x ∷ xs) (suc i) (suc j) v h = get_elem?-set_ne xs i j v (λ e. h (ap suc e))

abbrev byte_of : List ℕ → ℕ → ℕ
byte_of bitmap bit = get_or bitmap (bit / 8) 0

-- The byte of the bit decides it.
bit_is_set-byte :
    (bitmap : List ℕ) (bit : ℕ)
    → bit / 8 < length bitmap
    → bit_is_set bitmap bit ≡ bit_test (bit % 8) (byte_of bitmap bit)
unfolding bit_is_set
bit_is_set-byte bitmap bit h = rw (get_elem?-or bitmap (bit / 8) h, bit_is_set)

pub bit_at-ok :
    (bitmap : List ℕ) (bit : ℕ)
    → bit < length bitmap * 8
    → bit_at bitmap bit ≡ ok (bit_is_set bitmap bit)
unfolding bit_at bit_is_set
bit_at-ok bitmap bit h = rw (get_elem?-or bitmap (bit / 8) (omega arith), bit_at, bit_is_set)

-- A new value of the byte of `bit`, whose bits are `test`.
rewritten :
    (bitmap : List ℕ) (bit v : ℕ) (value : Bool) (j : ℕ)
    → bit / 8 < length bitmap
    → ((k : ℕ) → bit_test k v ≡ (if k == bit % 8 then value else bit_test k (byte_of bitmap bit)))
    → bit_is_set (set bitmap (bit / 8) v) j ≡ (if j == bit then value else bit_is_set bitmap j)
unfolding bit_is_set
rewritten bitmap bit v value j h t = elim (Bool-cases (bit / 8 == j / 8)) [
  | inl e ↦
      let same : j / 8 ≡ bit / 8 = sym (==→eq _ _ e) in
      let tests : (j == bit) ≡ (j % 8 == bit % 8) = ground arith in
      rw (
        same,
        get_elem?-set_self bitmap (bit / 8) v h,
        t (j % 8),
        tests,
        get_elem?-or bitmap (bit / 8) h,
        bit_is_set,
      )
  | inr e ↦
      let other : bit / 8 ≢ j / 8 = λ p. ground arith in
      let apart : (j == bit) ≡ false = ground arith in
      rw (get_elem?-set_ne bitmap (bit / 8) (j / 8) v other, apart, bit_is_set)
]

-- A bitmap with one bit rewritten to `value`.
pub record Marked (bitmap : List ℕ) (bit : ℕ) (value : Bool) (after : List ℕ) : Type 0 where
  pub same_length : length after ≡ length bitmap
  pub bits : (j : ℕ) → bit_is_set after j ≡ (if j == bit then value else bit_is_set bitmap j)

abbrev pub with_set : List ℕ → ℕ → List ℕ
with_set bitmap bit = set bitmap (bit / 8) (bit_set (bit % 8) (get_or bitmap (bit / 8) 0))

pub set_bit-Marked :
    (bitmap : List ℕ) (bit : ℕ)
    → bit < length bitmap * 8
    → (after : List ℕ) × (set_bit bitmap bit ≡ ok after) × Marked bitmap bit true after
unfolding set_bit
set_bit-Marked bitmap bit h =
    let inside : bit / 8 < length bitmap = omega arith in
    let v = bit_set (bit % 8) (byte_of bitmap bit) in
    (
      set bitmap (bit / 8) v,
      rw (lt→ltb _ _ inside),
      record {
        same_length = length-set bitmap (bit / 8) v;
        bits = λ j.
            rewritten bitmap bit v true j inside
              (λ k. bit_test-bit_set (bit % 8) k (byte_of bitmap bit));
      },
    )

pub clear_bit-Marked :
    (bitmap : List ℕ) (bit : ℕ)
    → bit < length bitmap * 8
    → (after : List ℕ) × (clear_bit bitmap bit ≡ ok after) × Marked bitmap bit false after
unfolding clear_bit
clear_bit-Marked bitmap bit h =
    let inside : bit / 8 < length bitmap = omega arith in
    let v = bit_clear (bit % 8) (byte_of bitmap bit) in
    (
      set bitmap (bit / 8) v,
      rw (lt→ltb _ _ inside),
      record {
        same_length = length-set bitmap (bit / 8) v;
        bits = λ j.
            rewritten bitmap bit v false j inside
              (λ k. bit_test-bit_clear (bit % 8) k (byte_of bitmap bit));
      },
    )
