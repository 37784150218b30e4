-- ===== src/Ext2/Repair/Inspection.antt =====
-- ext2/src/repair.rs: what the tests and the integration tests read of a mounted file system.
use rust_so_kernel.Prelude.{ℕ, ◌/◌, ◌%◌, Bool, replicate}
use rust_so_kernel.Ext2.{Outcome, ok, le_at, sub_u32, ◌>>=◌}
use rust_so_kernel.Ext2.Bitmap.{bit_is_set, count_free_bits}
use rust_so_kernel.Ext2.Device.{BlockDevice}
use rust_so_kernel.Ext2.Superblock.{Superblock}
use rust_so_kernel.Ext2.Inode.{i_mode}
use rust_so_kernel.Ext2.Volume.{
  block_vec, read_bgd, read_inode, or_io, blocks_in_group, inodes_in_group,
}

module _ (device : BlockDevice) (sb : Superblock) where
  unfoldable pub inode_used : ℕ → device.Disk → Outcome Bool
  inode_used ino disk = do
    bgd ← read_bgd device sb (sub_u32 ino 1 / sb.inodes_per_group) disk
    bitmap ← block_vec device sb bgd.inode_bitmap disk
    ok (bit_is_set bitmap (sub_u32 ino 1 % sb.inodes_per_group))

  unfoldable pub block_used : ℕ → device.Disk → Outcome Bool
  block_used block disk = do
    bgd ← read_bgd device sb (sub_u32 block sb.first_data_block / sb.blocks_per_group) disk
    bitmap ← block_vec device sb bgd.block_bitmap disk
    ok (bit_is_set bitmap (sub_u32 block sb.first_data_block % sb.blocks_per_group))

  unfoldable pub inode_mode : ℕ → device.Disk → Outcome ℕ
  inode_mode ino disk = do raw ← read_inode device sb ino disk; ok (i_mode raw)

  unfoldable pub sb_free_counts : device.Disk → Outcome (ℕ × ℕ)
  sb_free_counts disk = do
    raw ← or_io (device.read_sectors 2 2 (replicate 1024 0) disk)
    free_blocks ← le_at raw 12 4
    free_inodes ← le_at raw 16 4
    ok (free_blocks, free_inodes)

  unfoldable pub bgd_free_counts : ℕ → device.Disk → Outcome (ℕ × ℕ)
  bgd_free_counts group disk = do
    bgd ← read_bgd device sb group disk
    ok (bgd.free_blocks, bgd.free_inodes)

  unfoldable pub true_free_counts_group0 : device.Disk → Outcome (ℕ × ℕ)
  true_free_counts_group0 disk = do
    bgd ← read_bgd device sb 0 disk
    block_bitmap ← block_vec device sb bgd.block_bitmap disk
    real_free_blocks ← count_free_bits block_bitmap (blocks_in_group device sb 0)
    inode_bitmap ← block_vec device sb bgd.inode_bitmap disk
    real_free_inodes ← count_free_bits inode_bitmap (inodes_in_group device sb 0)
    ok (real_free_blocks, real_free_inodes)
