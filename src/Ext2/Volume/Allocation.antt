-- ===== src/Ext2/Volume/Allocation.antt =====
-- ext2/src/volume.rs: allocating and freeing blocks and inodes, and the inode table. A delta of -1
-- is the word of 32 ones.
use rust_so_kernel.Prelude.{
  ℕ, zero, suc, ◌-◌, ◌/◌, ◌%◌, Bool, ◌||◌, Option, none, some, List, length, leb, ltb, ◌==◌,
  if◌then◌else◌, replicate,
}
use rust_so_kernel.Ext2.{Outcome, err, halted, io, copy_at, add_u32, mul_u32}
use rust_so_kernel.Ext2.Bitmap.{find_first_free_bit, set_bit, clear_bit}
use rust_so_kernel.Ext2.Device.{BlockDevice}
use rust_so_kernel.Ext2.Superblock.{Superblock}
use rust_so_kernel.Ext2.Inode.{RawInode}
use rust_so_kernel.Ext2.Volume.{
  block_vec, read_bgd, blocks_in_group, inodes_in_group, inode_location,
}
use rust_so_kernel.Ext2.Volume.Actions.{
  Action, ◌>>=◌, ◌>>◌, look, done, result, write_block, adjust_bgd_counts, adjust_sb_counts,
}

abbrev pub minus_one : ℕ
minus_one = 4294967295

-- `block_buf[off..off + inode_size].copy_from_slice(&raw.buf)`: both sides have the same length.
abbrev pub copy_record : List ℕ → ℕ → ℕ → RawInode → Outcome (List ℕ)
copy_record block_buf off inode_size raw =
    if length raw == inode_size then copy_at block_buf off raw else halted

module _ (device : BlockDevice) (sb : Superblock) where
  -- A free bit of a group's block bitmap: claim it, or go on with the other groups.
  unfoldable pub claim_block :
      ℕ → ℕ → List ℕ → Option ℕ → Action device.Disk (Option ℕ) → Action device.Disk (Option ℕ)
  claim_block group block_bitmap bmap none rest = rest
  claim_block group block_bitmap bmap (some bit) rest = do
    marked ← result (set_bit bmap bit)
    write_block device sb block_bitmap marked
    adjust_bgd_counts device sb group minus_one 0 0
    adjust_sb_counts device sb minus_one 0
    let block_num = add_u32 (add_u32 sb.first_data_block (mul_u32 group sb.blocks_per_group)) bit
    write_block device sb block_num (replicate sb.block_size 0)
    done (some block_num)

  -- The groups from `group`, with `n` left.
  unfoldable pub alloc_block_from : ℕ → ℕ → Action device.Disk (Option ℕ)
  alloc_block_from zero group = done none
  alloc_block_from (suc n) group =
      let rest = alloc_block_from n (suc group) in
      look (read_bgd device sb group) >>= λ bgd.
      let in_group = look (block_vec device sb bgd.block_bitmap) >>= λ bmap.
      result (find_first_free_bit bmap (blocks_in_group device sb group)) >>= λ found.
      claim_block group bgd.block_bitmap bmap found rest in
      if bgd.free_blocks == 0 then rest else in_group

  unfoldable pub alloc_block : Action device.Disk (Option ℕ)
  alloc_block = alloc_block_from sb.num_groups 0

  unfoldable pub free_block : ℕ → Action device.Disk (Unit {0})
  free_block block_num =
      let group = (block_num - sb.first_data_block) / sb.blocks_per_group in
      let bit = (block_num - sb.first_data_block) % sb.blocks_per_group in
      if ltb block_num sb.first_data_block || leb sb.blocks_count block_num
      then result (err io)
      else do
        bgd ← look (read_bgd device sb group)
        bmap ← look (block_vec device sb bgd.block_bitmap)
        cleared ← result (clear_bit bmap bit)
        write_block device sb bgd.block_bitmap cleared
        adjust_bgd_counts device sb group 1 0 0
        adjust_sb_counts device sb 1 0

  unfoldable pub claim_inode :
      Bool
      → ℕ
      → ℕ
      → List ℕ
      → Option ℕ
      → Action device.Disk (Option ℕ)
      → Action device.Disk (Option ℕ)
  claim_inode is_dir group inode_bitmap bmap none rest = rest
  claim_inode is_dir group inode_bitmap bmap (some bit) rest = do
    marked ← result (set_bit bmap bit)
    write_block device sb inode_bitmap marked
    adjust_bgd_counts device sb group 0 minus_one (if is_dir then 1 else 0)
    adjust_sb_counts device sb 0 minus_one
    done (some (add_u32 (add_u32 (mul_u32 group sb.inodes_per_group) bit) 1))

  unfoldable pub alloc_inode_from : Bool → ℕ → ℕ → Action device.Disk (Option ℕ)
  alloc_inode_from is_dir zero group = done none
  alloc_inode_from is_dir (suc n) group =
      let rest = alloc_inode_from is_dir n (suc group) in
      look (read_bgd device sb group) >>= λ bgd.
      let in_group = look (block_vec device sb bgd.inode_bitmap) >>= λ bmap.
      result (find_first_free_bit bmap (inodes_in_group device sb group)) >>= λ found.
      claim_inode is_dir group bgd.inode_bitmap bmap found rest in
      if bgd.free_inodes == 0 then rest else in_group

  unfoldable pub alloc_inode : Bool → Action device.Disk (Option ℕ)
  alloc_inode is_dir = alloc_inode_from is_dir sb.num_groups 0

  unfoldable pub free_inode : ℕ → Bool → Action device.Disk (Unit {0})
  free_inode ino is_dir =
      let group = (ino - 1) / sb.inodes_per_group in
      let bit = (ino - 1) % sb.inodes_per_group in
      if ltb ino 1 || ltb sb.inodes_count ino then result (err io) else do
        bgd ← look (read_bgd device sb group)
        bmap ← look (block_vec device sb bgd.inode_bitmap)
        cleared ← result (clear_bit bmap bit)
        write_block device sb bgd.inode_bitmap cleared
        adjust_bgd_counts device sb group 0 1 (if is_dir then minus_one else 0)
        adjust_sb_counts device sb 0 1

  -- The record replaces exactly `inode_size` bytes.
  unfoldable pub write_inode : ℕ → RawInode → Action device.Disk (Unit {0})
  write_inode ino raw = do
    (table_block, offset_in_block) ← look (inode_location device sb ino)
    block_buf ← look (block_vec device sb table_block)
    patched ← result (copy_record block_buf offset_in_block sb.inode_size raw)
    write_block device sb table_block patched
