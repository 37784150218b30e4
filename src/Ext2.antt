-- ===== src/Ext2.antt =====
-- ext2/src/error.rs and what the ext2 modules share: the result of a call, slices of byte buffers
-- and the arithmetic of 32-bit words. A panic (an index out of bounds, a division by zero) is
-- `halted`; sums, differences and products wrap around, as in a release build.
pub mod Bitmap
pub mod Dirent
pub mod Superblock
pub mod Inode
pub mod Device
pub mod Volume
pub mod Records
pub mod Directory
pub mod Listing
pub mod Repair
use rust_so_kernel.Prelude.{
  ℕ, ◌+◌, ◌-◌, ◌*◌, ◌%◌, ◌≤◌, ◌≡◌, refl, List, length, leb, if◌then◌else◌, part, patch, from_le,
  arith, ap, Bool-cases, leb→le, inl, inr, ◌⊎◌,
}

pub data Ext2Error : Type 0 where
  io bad_magic unsupported_feature no_space too_large not_found too_deep : Ext2Error

pub data Outcome {ℓ} (A : Type ℓ) : Type ℓ where
  ok : A → Outcome A
  err : Ext2Error → Outcome A
  halted : Outcome A

-- `?`
infixl 5 ◌>>=◌
abbrev pub ◌>>=◌ {ℓ κ} : {A : Type ℓ} {B : Type κ} → Outcome A → (A → Outcome B) → Outcome B
ok a >>= f = f a
err e >>= f = err e
halted >>= f = halted

-- `&buf[off..off + n]`
unfoldable pub slice : List ℕ → ℕ → ℕ → Outcome (List ℕ)
slice buf off n = if leb (off + n) (length buf) then ok (part off n buf) else halted

-- `u16::from_le_bytes` and `u32::from_le_bytes` of such a slice.
unfoldable pub le_at : List ℕ → ℕ → ℕ → Outcome ℕ
unfolding slice
le_at buf off n = do bytes ← slice buf off n; ok (from_le bytes)

-- `buf[off..off + src.len()].copy_from_slice(src)`
unfoldable pub copy_at : List ℕ → ℕ → List ℕ → Outcome (List ℕ)
copy_at buf off src = if leb (off + length src) (length buf) then ok (patch buf off src) else halted

abbrev pub add_u32 : ℕ → ℕ → ℕ
add_u32 a b = (a + b) % 4294967296

abbrev pub sub_u32 : ℕ → ℕ → ℕ
sub_u32 a b = (a + 4294967296 - b) % 4294967296

abbrev pub mul_u32 : ℕ → ℕ → ℕ
mul_u32 a b = a * b % 4294967296

pub slice-ok :
    (buf : List ℕ) (off n : ℕ) → off + n ≤ length buf → slice buf off n ≡ ok (part off n buf)
unfolding slice
slice-ok buf off n h = ground arith

pub le_at-ok :
    (buf : List ℕ) (off n : ℕ)
    → off + n ≤ length buf
    → le_at buf off n ≡ ok (from_le (part off n buf))
unfolding le_at
le_at-ok buf off n h = rw (slice-ok buf off n h)

pub copy_at-ok :
    (buf : List ℕ) (off : ℕ) (src : List ℕ)
    → off + length src ≤ length buf
    → copy_at buf off src ≡ ok (patch buf off src)
unfolding copy_at
copy_at-ok buf off src h = ground arith

pub ok_inj {ℓ} : {A : Type ℓ} {a b : A} → ok a ≡ ok b → a ≡ b
ok_inj {A} {a} h = ap (λ r. elim r [ ok x ↦ x | err e ↦ a | halted ↦ a ]) h

-- A run that returns returned at each step.
pub then-ok {ℓ κ} :
    {A : Type ℓ} {B : Type κ} (m : Outcome A) (f : A → Outcome B) {b : B}
    → (m >>= f) ≡ ok b
    → (a : A) × (m ≡ ok a) × (f a ≡ ok b)
then-ok (ok a) f h = (a, refl, h)
then-ok (err e) f h = cc
then-ok halted f h = cc

-- A copy that returns had its range in bounds.
pub copy_at-eq :
    (buf : List ℕ) (off : ℕ) (src : List ℕ) {out : List ℕ}
    → copy_at buf off src ≡ ok out
    → (patch buf off src ≡ out) × (off + length src ≤ length buf)
unfolding copy_at
copy_at-eq buf off src {out} h = elim (Bool-cases (leb (off + length src) (length buf))) [
  | inl e ↦ (ok_inj (rw e at h), leb→le _ _ e)
  | inr e ↦ absurd (let h' = rw e at h in cc)
]

pub Outcome-cases {ℓ} :
    {A : Type ℓ} (r : Outcome A)
    → ((a : A) × (r ≡ ok a)) ⊎ (((e : Ext2Error) × (r ≡ err e)) ⊎ (r ≡ halted))
Outcome-cases (ok a) = inl (a, refl)
Outcome-cases (err e) = inr (inl (e, refl))
Outcome-cases halted = inr (inr refl)
