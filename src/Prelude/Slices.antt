-- ===== src/Prelude/Slices.antt =====
-- Parts of a list and copies into it: `buf[off..off + n]` and `buf[off..].copy_from_slice(src)`
-- where they are in bounds, and numbers as little-endian bytes.
use Prim.Native.Nat.{ℕ, zero, suc, ◌+◌, ◌*◌, ◌/◌, ◌%◌, ◌<◌, ◌≤◌}
use mathlib.Core.Path.{◌≡◌, refl, ap}
use mathlib.Core.List.{List, [], ◌∷◌}
use native.Mathlib.Omega.{arith}
use rust_so_kernel.Prelude.Lists.{
  length, take, drop, get_or, length-drop, length-take, take-take, take-all,
}

zero_add : (n : ℕ) → 0 + n ≡ n
zero_add n = omega arith

pub suc_add : (m n : ℕ) → suc m + n ≡ suc (m + n)
suc_add m n = omega arith

module _ {ℓ} {A : Type ℓ} where
  abbrev pub part : ℕ → ℕ → List A → List A
  part off n buf = take n (drop off buf)

  abbrev pub over : List A → List A → List A
  over buf [] = buf
  over [] (s ∷ src) = []
  over (b ∷ buf) (s ∷ src) = s ∷ over buf src

  abbrev pub patch : List A → ℕ → List A → List A
  patch buf zero src = over buf src
  patch [] (suc off) src = []
  patch (b ∷ buf) (suc off) src = b ∷ patch buf off src

  length-over : (buf src : List A) → length (over buf src) ≡ length buf
  length-over buf [] = refl
  length-over [] (s ∷ src) = refl
  length-over (b ∷ buf) (s ∷ src) = ap suc (length-over buf src)

  pub length-patch :
      (buf : List A) (off : ℕ) (src : List A) → length (patch buf off src) ≡ length buf
  length-patch buf zero src = length-over buf src
  length-patch [] (suc off) src = refl
  length-patch (b ∷ buf) (suc off) src = ap suc (length-patch buf off src)

  pub length-part : (off n : ℕ) (buf : List A) → off + n ≤ length buf → length (part off n buf) ≡ n
  length-part off n buf h = omega (arith, length-take n (drop off buf), length-drop off buf)

  take-over :
      (n : ℕ) (buf src : List A)
      → n ≤ length src
      → length src ≤ length buf
      → take n (over buf src) ≡ take n src
  take-over zero buf src h k = refl
  take-over (suc n) buf [] h k = absurd (omega arith)
  take-over (suc n) [] (s ∷ src) h k = absurd (omega arith)
  take-over (suc n) (b ∷ buf) (s ∷ src) h k =
      ap (◌∷◌ s) (take-over n buf src (omega arith) (omega arith))

  part-over :
      (i n : ℕ) (buf src : List A)
      → i + n ≤ length src
      → length src ≤ length buf
      → part i n (over buf src) ≡ part i n src
  part-over zero n buf src h k = take-over n buf src (omega arith) k
  part-over (suc i) n buf [] h k = absurd (omega arith)
  part-over (suc i) n [] (s ∷ src) h k = absurd (omega arith)
  part-over (suc i) n (b ∷ buf) (s ∷ src) h k = part-over i n buf src (omega arith) (omega arith)

  -- A part of what was copied.
  pub part-patch_in :
      (off i n : ℕ) (buf src : List A)
      → i + n ≤ length src
      → off + length src ≤ length buf
      → part (off + i) n (patch buf off src) ≡ part i n src
  part-patch_in zero i n buf src h k = rw (zero_add i) (part-over i n buf src h (omega arith))
  part-patch_in (suc off) i n [] src h k = absurd (omega arith)
  part-patch_in (suc off) i n (b ∷ buf) src h k =
      rw (suc_add off i) (part-patch_in off i n buf src h (omega arith))

  pub part-patch_self :
      (off : ℕ) (buf src : List A)
      → off + length src ≤ length buf
      → part off (length src) (patch buf off src) ≡ src
  part-patch_self zero buf src k =
      rw (take-over (length src) buf src (omega arith) (omega arith))
        (take-all (length src) src (omega arith))
  part-patch_self (suc off) [] src k = absurd (omega arith)
  part-patch_self (suc off) (b ∷ buf) src k = part-patch_self off buf src (omega arith)

  drop-over : (i : ℕ) (buf src : List A) → length src ≤ i → drop i (over buf src) ≡ drop i buf
  drop-over i buf [] h = refl
  drop-over i [] (s ∷ src) h = refl
  drop-over zero (b ∷ buf) (s ∷ src) h = absurd (omega arith)
  drop-over (suc i) (b ∷ buf) (s ∷ src) h = drop-over i buf src (omega arith)

  -- A part behind the copy, and one before it.
  pub part-patch_behind :
      (off i n : ℕ) (buf src : List A)
      → off + length src ≤ i
      → part i n (patch buf off src) ≡ part i n buf
  part-patch_behind zero i n buf src h = ap (take n) (drop-over i buf src (omega arith))
  part-patch_behind (suc off) i n [] src h = refl
  part-patch_behind (suc off) zero n (b ∷ buf) src h = absurd (omega arith)
  part-patch_behind (suc off) (suc i) n (b ∷ buf) src h =
      part-patch_behind off i n buf src (omega arith)

  pub part-patch_before :
      (off i n : ℕ) (buf src : List A) → i + n ≤ off → part i n (patch buf off src) ≡ part i n buf
  part-patch_before off i zero buf src h = refl
  part-patch_before zero i (suc n) buf src h = absurd (omega arith)
  part-patch_before (suc off) i (suc n) [] src h = refl
  part-patch_before (suc off) zero (suc n) (b ∷ buf) src h =
      ap (◌∷◌ b) (part-patch_before off zero n buf src (omega arith))
  part-patch_before (suc off) (suc i) n (b ∷ buf) src h =
      part-patch_before off i n buf src (omega arith)

  pub drop_nil : (i : ℕ) → drop {A = A} i [] ≡ []
  drop_nil zero = refl
  drop_nil (suc i) = refl

  drop-drop : (i j : ℕ) (buf : List A) → drop i (drop j buf) ≡ drop (j + i) buf
  drop-drop i zero buf = rw (zero_add i)
  drop-drop i (suc j) [] = rw (drop_nil i, drop_nil (suc j + i))
  drop-drop i (suc j) (b ∷ buf) = rw (suc_add j i) (drop-drop i j buf)

  drop-take : (i n : ℕ) (buf : List A) → drop i (take (i + n) buf) ≡ take n (drop i buf)
  drop-take zero n buf = rw (zero_add n)
  drop-take (suc i) zero [] = rw (suc_add i 0)
  drop-take (suc i) (suc n) [] = rw (suc_add i (suc n))
  drop-take (suc i) n (b ∷ buf) = rw (suc_add i n) (drop-take i n buf)

  part-take : (i m n : ℕ) (buf : List A) → i + m ≤ n → part i m (take n buf) ≡ part i m buf
  part-take zero m n buf h = take-take m n buf (omega arith)
  part-take (suc i) m zero buf h = absurd (omega arith)
  part-take (suc i) m (suc n) [] h = refl
  part-take (suc i) m (suc n) (b ∷ buf) h = part-take i m n buf (omega arith)

  -- A part of a part.
  pub part-part :
      (off n i m : ℕ) (buf : List A) → i + m ≤ n → part i m (part off n buf) ≡ part (off + i) m buf
  part-part off n i m buf h = rw (part-take i m n (drop off buf) h, drop-drop i off buf)

  over-whole : (buf src : List A) → length src ≡ length buf → over buf src ≡ src
  over-whole [] [] h = refl
  over-whole (b ∷ buf) [] h = absurd (omega arith)
  over-whole [] (s ∷ src) h = absurd (omega arith)
  over-whole (b ∷ buf) (s ∷ src) h = ap (◌∷◌ s) (over-whole buf src (omega arith))

  pub patch-whole : (buf src : List A) → length src ≡ length buf → patch buf 0 src ≡ src
  patch-whole buf src h = over-whole buf src h

  over-take : (n : ℕ) (buf : List A) → over buf (take n buf) ≡ buf
  over-take zero buf = refl
  over-take (suc n) [] = refl
  over-take (suc n) (b ∷ buf) = ap (◌∷◌ b) (over-take n buf)

  over-over :
      (n : ℕ) (buf src : List A) → length src ≤ n → over buf (over (take n buf) src) ≡ over buf src
  over-over n buf [] h = over-take n buf
  over-over zero buf (s ∷ src) h = absurd (omega arith)
  over-over (suc n) [] (s ∷ src) h = refl
  over-over (suc n) (b ∷ buf) (s ∷ src) h = ap (◌∷◌ s) (over-over n buf src (omega arith))

  -- A copy into a part that is put back is a copy.
  pub patch-part :
      (off n : ℕ) (buf src : List A)
      → length src ≤ n
      → patch buf off (patch (part off n buf) 0 src) ≡ patch buf off src
  patch-part zero n buf src h = over-over n buf src h
  patch-part (suc off) n [] src h = refl
  patch-part (suc off) n (b ∷ buf) src h = ap (◌∷◌ b) (patch-part off n buf src h)

  pub get_or-part : (i : ℕ) (buf : List A) (d : A) → get_or buf i d ≡ get_or (part i 1 buf) 0 d
  get_or-part zero [] d = refl
  get_or-part zero (b ∷ buf) d = refl
  get_or-part (suc i) [] d = refl
  get_or-part (suc i) (b ∷ buf) d = get_or-part i buf d

-- `from_le_bytes` and `to_le_bytes`.
abbrev pub from_le : List ℕ → ℕ
from_le [] = 0
from_le (b ∷ bs) = b + 256 * from_le bs

abbrev pub to_le : ℕ → ℕ → List ℕ
to_le zero x = []
to_le (suc n) x = x % 256 ∷ to_le n (x / 256)

pub length-to_le : (n x : ℕ) → length (to_le n x) ≡ n
length-to_le zero x = refl
length-to_le (suc n) x = ap suc (length-to_le n (x / 256))

pub from_le-to_le_2 : (x : ℕ) → x < 65536 → from_le (to_le 2 x) ≡ x
from_le-to_le_2 x h = omega arith

pub from_le-to_le_4 : (x : ℕ) → x < 4294967296 → from_le (to_le 4 x) ≡ x
from_le-to_le_4 x h = omega arith
