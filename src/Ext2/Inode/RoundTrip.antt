-- ===== src/Ext2/Inode/RoundTrip.antt =====
-- ext2/src/inode.rs: each field is read back as it was set, and the others stay.
use rust_so_kernel.Prelude.{
  ℕ, ◌+◌, ◌*◌, ◌/◌, ◌%◌, ◌<◌, ◌≤◌, ◌≡◌, ◌≢◌, ap, ◌∙◌, List, length, if◌then◌else◌, part, patch,
  from_le, to_le, part-patch_self, part-patch_behind, part-patch_before, length-patch,
  from_le-to_le_4, arith, inl, inr, ◌⊎◌, Bool-cases, ◌==◌, ==_refl,
}
use rust_so_kernel.Ext2.Inode.{RawInode, i_mode, size, set_size, i_block, set_i_block, is_reg}

order : (i j : ℕ) → j ≢ i → (i < j) ⊎ (j < i)
order i j h = ground arith

pub le_patch_4 :
    (raw : RawInode) (off v : ℕ)
    → off + 4 ≤ length raw
    → v < 4294967296
    → from_le (part off 4 (patch raw off (to_le 4 v))) ≡ v
le_patch_4 raw off v h k = ap from_le (part-patch_self off raw (to_le 4 v) h) ∙ from_le-to_le_4 v k

apart :
    (raw : RawInode) (i j v : ℕ)
    → j ≢ i
    → part (40 + j * 4) 4 (patch raw (40 + i * 4) (to_le 4 v)) ≡ part (40 + j * 4) 4 raw
apart raw i j v h = elim (order i j h) [
  | inl lt ↦ part-patch_behind (40 + i * 4) (40 + j * 4) 4 raw (to_le 4 v) (omega arith)
  | inr gt ↦ part-patch_before (40 + i * 4) (40 + j * 4) 4 raw (to_le 4 v) (omega arith)
]

-- Setting the i-th pointer and reading the j-th.
pub i_block-set_i_block :
    (raw : RawInode) (i j v : ℕ)
    → 40 + i * 4 + 4 ≤ length raw
    → v < 4294967296
    → i_block j (set_i_block i v raw) ≡ (if j == i then v else i_block j raw)
unfolding i_block set_i_block
i_block-set_i_block raw i j v h k = elim (Bool-cases (j == i)) [
  | inl e ↦
      let same : j ≡ i = ground arith in rw (same, ==_refl i) (le_patch_4 raw (40 + i * 4) v h k)
  | inr e ↦ rw e (ap from_le (apart raw i j v (ground arith)))
]

is_reg_kept :
    (raw : RawInode) (off : ℕ) (src : List ℕ) → 2 ≤ off → is_reg (patch raw off src) ≡ is_reg raw
unfolding is_reg i_mode
is_reg_kept raw off src h = rw (part-patch_before off 0 2 raw src h, is_reg, i_mode)

module _ (raw : RawInode) (v : ℕ) where
  abbrev low : RawInode
  low = patch raw 4 (to_le 4 (v % 4294967296))

  abbrev both : RawInode
  both = patch low 108 (to_le 4 (v / 4294967296))

  low_kept : is_reg low ≡ is_reg raw
  low_kept = is_reg_kept raw 4 (to_le 4 (v % 4294967296)) (omega arith)

  both_kept : is_reg both ≡ is_reg raw
  both_kept = is_reg_kept low 108 (to_le 4 (v / 4294967296)) (omega arith) ∙ low_kept

  module _ (long : 112 ≤ length raw) (word : v < 18446744073709551616) where
    low_word : from_le (part 4 4 low) ≡ v % 4294967296
    low_word = le_patch_4 raw 4 (v % 4294967296) (omega arith) (omega arith)

    low_word_after : from_le (part 4 4 both) ≡ v % 4294967296
    low_word_after =
        ap from_le (part-patch_before 108 4 4 low (to_le 4 (v / 4294967296)) (omega arith))
        ∙ low_word

    high_word : from_le (part 108 4 both) ≡ v / 4294967296
    high_word =
        let len = length-patch raw 4 (to_le 4 (v % 4294967296)) in
        le_patch_4 low 108 (v / 4294967296) (omega arith) (omega arith)

    -- The size of a regular file has 64 bits; that of any other inode keeps the lower 32.
    pub size-set_size : size (set_size v raw) ≡ (if is_reg raw then v else v % 4294967296)
    unfolding size set_size
    size-set_size = elim (Bool-cases (is_reg raw)) [
      | inl reg ↦
          rw (low_kept, reg, both_kept, reg, high_word, low_word_after, set_size, size)
            (omega arith)
      | inr other ↦ rw (low_kept, other, low_kept, other, low_word, set_size, size)
    ]
