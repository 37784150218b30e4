-- ===== src/Prelude/Bits.antt =====
-- Machine words as bit sets, by recursion on the bit number: `x >> k & 1`, `x | 1 << k`,
-- `x & !(1 << k)`, `x & !y` and `trailing_zeros`, with the laws that connect them.
use Prim.Native.Nat.{ℕ, zero, suc, ◌+◌, ◌*◌, ◌/◌, ◌%◌, ◌^◌, ◌<◌, ◌≤◌}
use native.Mathlib.Nat.{two-pow-succ}
use mathlib.Core.Path.{◌≡◌, refl, ap, sym, ◌∙◌}
use mathlib.Core.Logic.{inl, inr, ◌≢◌}
use mathlib.Core.Bool.{Bool, true, false, ◌&&◌, ◌||◌, not}
use native.Mathlib.Omega.{arith}
use rust_so_kernel.Prelude.Tests.{◌==◌, if◌then◌else◌, Bool-cases}

unfoldable pub bit_test : ℕ → ℕ → Bool
bit_test zero x = x % 2 == 1
bit_test (suc k) x = bit_test k (x / 2)

unfoldable pub bit_set : ℕ → ℕ → ℕ
bit_set zero x = x / 2 * 2 + 1
bit_set (suc k) x = bit_set k (x / 2) * 2 + x % 2

unfoldable pub bit_clear : ℕ → ℕ → ℕ
bit_clear zero x = x / 2 * 2
bit_clear (suc k) x = bit_clear k (x / 2) * 2 + x % 2

-- `x & !y` on words of `w` bits.
unfoldable pub bit_and_not : ℕ → ℕ → ℕ → ℕ
bit_and_not zero x y = 0
bit_and_not (suc w) x y = bit_and_not w (x / 2) (y / 2) * 2 + (if y % 2 == 1 then 0 else x % 2)

-- `x | y` on words of `w` bits.
unfoldable pub bit_union : ℕ → ℕ → ℕ → ℕ
bit_union zero x y = 0
bit_union (suc w) x y = bit_union w (x / 2) (y / 2) * 2 + (if x % 2 == 1 then 1 else y % 2)

-- `x.trailing_zeros()` on a word of `w` bits; `w` for the word 0.
unfoldable pub trailing_zeros : ℕ → ℕ → ℕ
trailing_zeros zero x = 0
trailing_zeros (suc w) x =
    let rest = suc (trailing_zeros w (x / 2)) in if x % 2 == 1 then 0 else rest

half_double : (q r : ℕ) → r < 2 → (q * 2 + r) / 2 ≡ q
half_double q r h = omega arith

half_even : (q : ℕ) → q * 2 / 2 ≡ q
half_even q = omega arith

pub bit_test-bit_set :
    (k j x : ℕ) → bit_test j (bit_set k x) ≡ (if j == k then true else bit_test j x)
unfolding bit_test bit_set
bit_test-bit_set zero zero x = ground arith
bit_test-bit_set zero (suc j) x = rw (half_double (x / 2) 1 (omega arith)) (ground arith)
bit_test-bit_set (suc k) zero x = ground arith
bit_test-bit_set (suc k) (suc j) x =
    rw (half_double (bit_set k (x / 2)) (x % 2) (omega arith))
      (ground (arith, bit_test-bit_set k j (x / 2)))

pub bit_test-bit_clear :
    (k j x : ℕ) → bit_test j (bit_clear k x) ≡ (if j == k then false else bit_test j x)
unfolding bit_test bit_clear
bit_test-bit_clear zero zero x = ground arith
bit_test-bit_clear zero (suc j) x = rw (half_even (x / 2)) (ground arith)
bit_test-bit_clear (suc k) zero x = ground arith
bit_test-bit_clear (suc k) (suc j) x =
    rw (half_double (bit_clear k (x / 2)) (x % 2) (omega arith))
      (ground (arith, bit_test-bit_clear k j (x / 2)))

pub bit_test-and_not :
    (w j x y : ℕ) → j < w → bit_test j (bit_and_not w x y) ≡ (bit_test j x && not (bit_test j y))
unfolding bit_test bit_and_not
bit_test-and_not zero j x y h = absurd (omega arith)
bit_test-and_not (suc w) zero x y h = ground arith
bit_test-and_not (suc w) (suc j) x y h =
    rw
      (half_double (bit_and_not w (x / 2) (y / 2)) (if y % 2 == 1 then 0 else x % 2) (ground arith))
      (bit_test-and_not w j (x / 2) (y / 2) (omega arith))

-- `trailing_zeros` is the lowest bit set: it is set, and none below it is.
pub bit_test-trailing_zeros :
    (w x : ℕ) → trailing_zeros w x < w → bit_test (trailing_zeros w x) x ≡ true
unfolding bit_test trailing_zeros
bit_test-trailing_zeros zero x h = absurd (omega arith)
bit_test-trailing_zeros (suc w) x h = elim (Bool-cases (x % 2 == 1)) [
  | inl odd ↦ rw (odd, bit_test) odd
  | inr even ↦
      rw (even, bit_test) (bit_test-trailing_zeros w (x / 2) (let h' = rw even at h in omega arith))
]

pub bit_test_below : (w x j : ℕ) → j < trailing_zeros w x → bit_test j x ≡ false
unfolding bit_test trailing_zeros
bit_test_below zero x j h = absurd (omega arith)
bit_test_below (suc w) x zero h = ground arith
bit_test_below (suc w) x (suc j) h = bit_test_below w (x / 2) j (ground arith)

-- A word below 2 ^ w with no bit among its first `w` is 0.
pub trailing_zeros-le : (w x : ℕ) → trailing_zeros w x ≤ w
unfolding trailing_zeros
trailing_zeros-le zero x = omega arith
trailing_zeros-le (suc w) x = ground (arith, trailing_zeros-le w (x / 2))

pub trailing_zeros_of_bit : (w x j : ℕ) → j < w → bit_test j x ≡ true → trailing_zeros w x ≤ j
unfolding trailing_zeros bit_test
trailing_zeros_of_bit zero x j h e = absurd (omega arith)
trailing_zeros_of_bit (suc w) x zero h e = ground arith
trailing_zeros_of_bit (suc w) x (suc j) h e =
    ground (arith, trailing_zeros_of_bit w (x / 2) j (omega arith) e)

-- A word of `w` bits that is not 0 has a bit set.
pub trailing_zeros-lt :
    (w x y : ℕ) → bit_and_not w x y ≢ 0 → trailing_zeros w (bit_and_not w x y) < w
unfolding trailing_zeros bit_and_not
trailing_zeros-lt zero x y h = absurd (h refl)
trailing_zeros-lt (suc w) x y h =
    let low = if y % 2 == 1 then 0 else x % 2 in
    let bound : low < 2 = ground arith in
    rw (half_double (bit_and_not w (x / 2) (y / 2)) low bound)
      (ground (arith, trailing_zeros-lt w (x / 2) (y / 2)))

pub bit_test-union :
    (w j x y : ℕ) → j < w → bit_test j (bit_union w x y) ≡ (bit_test j x || bit_test j y)
unfolding bit_test bit_union
bit_test-union zero j x y h = absurd (omega arith)
bit_test-union (suc w) zero x y h = ground arith
bit_test-union (suc w) (suc j) x y h =
    rw (half_double (bit_union w (x / 2) (y / 2)) (if x % 2 == 1 then 1 else y % 2) (ground arith))
      (bit_test-union w j (x / 2) (y / 2) (omega arith))

pub pow_positive : (n : ℕ) → 0 < 2 ^ n
pow_positive zero = omega arith
pow_positive (suc n) = rw (two-pow-succ n) (omega (arith, pow_positive n))

one_more : (a : ℕ) → a * 1 ≡ a
one_more a = omega arith

spread : (a b : ℕ) → a * b + a * b ≡ a * (b + b)
spread a b = omega arith

pub pow_add : (m n : ℕ) → 2 ^ (m + n) ≡ 2 ^ m * 2 ^ n
pow_add m zero = ap (λ (k : ℕ). 2 ^ k) (omega arith) ∙ sym (one_more (2 ^ m))
pow_add m (suc n) =
    ap (λ (k : ℕ). 2 ^ k) (omega arith)
    ∙ two-pow-succ (m + n)
    ∙ (rw (pow_add m n, two-pow-succ n) (spread (2 ^ m) (2 ^ n)))
