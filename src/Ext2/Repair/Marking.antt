-- ===== src/Ext2/Repair/Marking.antt =====
-- ext2/src/repair.rs: what a mark changes in the bitmaps of the walk.
use rust_so_kernel.Prelude.{
  ℕ, ◌-◌, ◌*◌, ◌/◌, ◌%◌, ◌<◌, ◌≤◌, ◌≡◌, ◌⊎◌, inl, inr, refl, sym, ◌∙◌, true, false, List, [], ◌∷◌,
  length, leb, ltb, ◌==◌, if◌then◌else◌, get_or, length-set, All, arith, Bool-cases, ==→eq, ==_refl,
}
use rust_so_kernel.Prelude.Bits.{bit_set}
use rust_so_kernel.Ext2.{ok, ok_inj}
use rust_so_kernel.Ext2.Bitmap.{bit_is_set, set_bit}
use rust_so_kernel.Ext2.Bitmap.Marks.{set_bit-Marked}
use rust_so_kernel.Ext2.Repair.{mark_bit, mark_bit_1based, bit_set_1based, mark_all}

set_bit-mark_bit :
    (bitmap : List ℕ) (n : ℕ) → n < length bitmap * 8 → set_bit bitmap n ≡ ok (mark_bit bitmap n)
unfolding set_bit mark_bit
set_bit-mark_bit bitmap n h =
    let inside : ltb (n / 8) (length bitmap) ≡ true = ground arith in rw (inside, set_bit, mark_bit)

-- What `mark_bit` does to the bits: it sets its own, if that is in range.
mark_bit-bits :
    (bitmap : List ℕ) (n j : ℕ)
    → n < length bitmap * 8
    → bit_is_set (mark_bit bitmap n) j ≡ (if j == n then true else bit_is_set bitmap j)
mark_bit-bits bitmap n j h =
    let (after, sets, m) = set_bit-Marked bitmap n h in
    let same : mark_bit bitmap n ≡ after = ok_inj (sym (set_bit-mark_bit bitmap n h) ∙ sets) in
    rw same (m.bits j)

mark_bit-out : (bitmap : List ℕ) (n : ℕ) → length bitmap * 8 ≤ n → mark_bit bitmap n ≡ bitmap
unfolding mark_bit
mark_bit-out bitmap n h =
    let out : ltb (n / 8) (length bitmap) ≡ false = ground arith in rw (out, mark_bit)

pub mark_bit-length : (bitmap : List ℕ) (n : ℕ) → length (mark_bit bitmap n) ≡ length bitmap
unfolding mark_bit
mark_bit-length bitmap n = elim (Bool-cases (ltb (n / 8) (length bitmap))) [
  | inl inside ↦
      rw (inside, mark_bit) (length-set bitmap (n / 8) (bit_set (n % 8) (get_or bitmap (n / 8) 0)))
  | inr out ↦ rw (out, mark_bit)
]

-- A mark once set stays set.
mark_bit-keeps :
    (bitmap : List ℕ) (n j : ℕ)
    → bit_is_set bitmap j ≡ true
    → bit_is_set (mark_bit bitmap n) j ≡ true
mark_bit-keeps bitmap n j h = elim (Bool-cases (ltb n (length bitmap * 8))) [
  | inl inside ↦
      rw (mark_bit-bits bitmap n j (ground arith))
        (elim (Bool-cases (j == n)) [ inl e ↦ rw e | inr e ↦ rw (e, h) ])
  | inr out ↦ rw (mark_bit-out bitmap n (ground arith), h)
]

pub mark_all-keeps :
    (bitmap bs : List ℕ) (j : ℕ)
    → bit_is_set bitmap j ≡ true
    → bit_is_set (mark_all bitmap bs) j ≡ true
unfolding mark_all
mark_all-keeps bitmap [] j h = h
mark_all-keeps bitmap (b ∷ bs) j h =
    mark_all-keeps (mark_bit bitmap b) bs j (mark_bit-keeps bitmap b j h)

pub mark_all-length : (bitmap bs : List ℕ) → length (mark_all bitmap bs) ≡ length bitmap
unfolding mark_all
mark_all-length bitmap [] = refl
mark_all-length bitmap (b ∷ bs) = mark_all-length (mark_bit bitmap b) bs ∙ mark_bit-length bitmap b

-- A block that is marked, or too large a number for the bitmap.
abbrev pub BlockMarked : List ℕ → ℕ → Type 0
BlockMarked bitmap b = (bit_is_set bitmap b ≡ true) ⊎ (length bitmap * 8 ≤ b)

pub mark_all-marks : (bitmap bs : List ℕ) → All (BlockMarked (mark_all bitmap bs)) bs
unfolding mark_all
mark_all-marks bitmap [] = tt
mark_all-marks bitmap (b ∷ bs) =
    let rest = mark_all-marks (mark_bit bitmap b) bs in
    let size = mark_all-length (mark_bit bitmap b) bs in
    let size' = mark_bit-length bitmap b in
    elim (Bool-cases (ltb b (length bitmap * 8))) [
      | inl inside ↦
          let set' : bit_is_set (mark_bit bitmap b) b ≡ true =
            mark_bit-bits bitmap b b (ground arith) ∙ rw (==_refl b) in
          (inl (mark_all-keeps (mark_bit bitmap b) bs b set'), rest)
      | inr out ↦ (inr (ground arith), rest)
    ]

pub mark_1based-keeps :
    (bitmap : List ℕ) (ino i : ℕ)
    → bit_set_1based bitmap i ≡ true
    → bit_set_1based (mark_bit_1based bitmap ino) i ≡ true
unfolding bit_set_1based mark_bit_1based
mark_1based-keeps bitmap ino i h = elim (Bool-cases (leb 1 ino)) [
  | inr e ↦ rw (e, mark_bit_1based, h)
  | inl e ↦ elim (Bool-cases (leb 1 i)) [
    | inl e' ↦
        rw (e, e', mark_bit_1based, bit_set_1based)
          (mark_bit-keeps bitmap (ino - 1) (i - 1) (rw (e', bit_set_1based) at h))
    | inr e' ↦ absurd (let h' = rw (e', bit_set_1based) at h in cc)
  ]
]

pub mark_1based_self :
    (bitmap : List ℕ) (ino : ℕ)
    → 1 ≤ ino
    → ino ≤ length bitmap * 8
    → bit_set_1based (mark_bit_1based bitmap ino) ino ≡ true
unfolding bit_set_1based mark_bit_1based
mark_1based_self bitmap ino h k =
    let e : leb 1 ino ≡ true = ground arith in
    rw (e, mark_bit_1based, bit_set_1based)
      (mark_bit-bits bitmap (ino - 1) (ino - 1) (omega arith) ∙ rw (==_refl (ino - 1)))

pub mark_1based-other :
    (bitmap : List ℕ) (ino i : ℕ)
    → 1 ≤ ino
    → ino ≤ length bitmap * 8
    → bit_set_1based (mark_bit_1based bitmap ino) i ≡ true
    → (bit_set_1based bitmap i ≡ true) ⊎ (i ≡ ino)
unfolding bit_set_1based mark_bit_1based
mark_1based-other bitmap ino i low high h = elim (Bool-cases (i == ino)) [
  | inl e ↦ inr (==→eq _ _ e)
  | inr e ↦ inl (elim (Bool-cases (leb 1 i)) [
    | inr e' ↦ absurd (let h' = rw (e', bit_set_1based) at h in cc)
    | inl e' ↦
        let e'' : leb 1 ino ≡ true = ground arith in
        let apart : (i - 1 == ino - 1) ≡ false = ground arith in
        let h' : bit_is_set (mark_bit bitmap (ino - 1)) (i - 1) ≡ true =
          rw (e', e'', mark_bit_1based, bit_set_1based) at h in
        rw (e', bit_set_1based)
          (rw (mark_bit-bits bitmap (ino - 1) (i - 1) (omega arith), apart) at h')
  ])
]
