-- ===== src/Ext2/Repair.antt =====
-- ext2/src/repair.rs: the marks of what is reachable from the root directory.
pub mod Passes
pub mod Marking
pub mod Closure
pub mod Sweep
pub mod Inspection
use rust_so_kernel.Prelude.{
  ℕ, zero, suc, ◌+◌, ◌-◌, ◌*◌, ◌/◌, ◌%◌, Bool, true, false, ◌&&◌, List, [], ◌∷◌, length, get_or,
  set, leb, ltb, ◌==◌, if◌then◌else◌, replicate,
}
use rust_so_kernel.Prelude.Bits.{bit_set}
use rust_so_kernel.Ext2.{Outcome, ok, err, halted, too_deep, add_u32, mul_u32, sub_u32, ◌>>=◌}
use rust_so_kernel.Ext2.Bitmap.{bit_is_set}
use rust_so_kernel.Ext2.Device.{BlockDevice}
use rust_so_kernel.Ext2.Superblock.{Superblock, BlockGroupDesc, root_ino}
use rust_so_kernel.Ext2.Inode.{RawInode, is_dir, has_block_pointers}
use rust_so_kernel.Ext2.Volume.{read_inode, read_bgd}
use rust_so_kernel.Ext2.Records.{DirEntry}
use rust_so_kernel.Ext2.Listing.{read_dir_entries, visit_inode_blocks}

-- A bit out of range is ignored. The file's own `bit_set` is `bit_is_set` of the bitmaps.
unfoldable pub mark_bit : List ℕ → ℕ → List ℕ
mark_bit bitmap n =
    let byte = n / 8 in
    if ltb byte (length bitmap)
    then set bitmap byte (bit_set (n % 8) (get_or bitmap byte 0))
    else bitmap

unfoldable pub mark_bit_1based : List ℕ → ℕ → List ℕ
mark_bit_1based bitmap ino = if leb 1 ino then mark_bit bitmap (ino - 1) else bitmap

unfoldable pub bit_set_1based : List ℕ → ℕ → Bool
bit_set_1based bitmap ino = leb 1 ino && bit_is_set bitmap (ino - 1)

unfoldable pub mark_all : List ℕ → List ℕ → List ℕ
mark_all bitmap [] = bitmap
mark_all bitmap (b ∷ bs) = mark_all (mark_bit bitmap b) bs

-- The two bitmaps that the walk fills.
pub record Marks : Type 0 where
  pub used_inodes : List ℕ
  pub used_blocks : List ℕ

-- The entries of a directory, one after the other.
abbrev pub mark_entries : (ℕ → Marks → Outcome Marks) → List DirEntry → Marks → Outcome Marks
mark_entries mark [] marks = ok marks
mark_entries mark (e ∷ es) marks = do marks_1 ← mark e.ino marks; mark_entries mark es marks_1

module _ (device : BlockDevice) (sb : Superblock) where
  abbrev pub blocks_of : RawInode → device.Disk → Outcome (List ℕ)
  blocks_of raw disk =
      if has_block_pointers raw then visit_inode_blocks device sb raw disk else ok []

  abbrev pub children_of : RawInode → device.Disk → Outcome (List DirEntry)
  children_of raw disk = if is_dir raw then read_dir_entries device sb raw disk else ok []

  unfoldable pub mark_reachable : ℕ → device.Disk → ℕ → Marks → Outcome Marks
  mark_reachable zero disk ino marks =
      if bit_set_1based marks.used_inodes ino then ok marks else err too_deep
  mark_reachable (suc depth_left) disk ino marks =
      let marked = mark_bit_1based marks.used_inodes ino in
      let walk : Outcome Marks = do
        raw ← read_inode device sb ino disk
        blocks ← blocks_of raw disk
        entries ← children_of raw disk
        mark_entries (mark_reachable depth_left disk) entries
            (record { used_inodes = marked; used_blocks = mark_all marks.used_blocks blocks })
      in if bit_set_1based marks.used_inodes ino then ok marks else walk
