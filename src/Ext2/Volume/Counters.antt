-- ===== src/Ext2/Volume/Counters.antt =====
-- ext2/src/volume.rs: the counters of free blocks and inodes, and what a change of them leaves.
use rust_so_kernel.Prelude.{ℕ, ◌+◌, ◌≤◌, ◌≡◌, ◌≢◌, arith, inl, inr, Bool-cases, leb, replicate}
use rust_so_kernel.Ext2.{ok}
use rust_so_kernel.Ext2.Device.{BlockDevice}
use rust_so_kernel.Ext2.Superblock.{Superblock, bgd_location}
use rust_so_kernel.Ext2.Volume.{block_vec, read_block, add_at, lba_of, or_io}
use rust_so_kernel.Ext2.Volume.Actions.{adjust_bgd_counts, adjust_sb_counts}
use rust_so_kernel.Ext2.Volume.Blocks.{HasAddresses, block_vec-other, written-ok}
use rust_so_kernel.Ext2.Volume.Inodes.{look-done}

module _ (device : BlockDevice) (sb : Superblock) (a : HasAddresses device sb) where
  -- The counts of a group change no block but the one of its descriptor.
  pub adjust_bgd_counts-other :
      (group blocks inodes dirs blk off c : ℕ) (disk : device.Disk) {after : device.Disk}
      → adjust_bgd_counts device sb group blocks inodes dirs disk ≡ (ok tt, after)
      → bgd_location sb group ≡ ok (blk, off)
      → blk ≢ c
      → block_vec device sb c after ≡ block_vec device sb c disk
  unfolding adjust_bgd_counts
  adjust_bgd_counts-other group blocks inodes dirs blk off c disk {after} h loc n =
      let (buf, has, h1) =
        look-done (block_vec device sb blk disk) disk _ (rw (loc, adjust_bgd_counts) at h) in
      let (buf_1, e1, h2) = look-done (add_at (off + 12) 2 blocks buf) disk _ h1 in
      let (buf_2, e2, h3) = look-done (add_at (off + 14) 2 inodes buf_1) disk _ h2 in
      let (buf_3, e3, h4) = look-done (add_at (off + 16) 2 dirs buf_2) disk _ h3 in
      block_vec-other device sb a blk c buf_3 disk h4 n

  -- The counts of the superblock stand in the sectors 2 and 3.
  pub adjust_sb_counts-other :
      (blocks inodes c : ℕ) (disk : device.Disk) {after : device.Disk}
      → adjust_sb_counts device sb blocks inodes disk ≡ (ok tt, after)
      → 4 ≤ lba_of device sb c
      → block_vec device sb c after ≡ block_vec device sb c disk
  unfolding adjust_sb_counts block_vec read_block
  adjust_sb_counts-other blocks inodes c disk {after} h behind =
      let (raw, has, h1) =
        look-done (or_io (device.read_sectors 2 2 (replicate 1024 0) disk)) disk _ h in
      let (raw_1, e1, h2) = look-done (add_at 12 4 blocks raw) disk _ h1 in
      let (raw_2, e2, h3) = look-done (add_at 16 4 inodes raw_1) disk _ h2 in
      let wrote = written-ok (device.write_sectors 2 2 raw_2 disk) h3 in
      elim (Bool-cases (leb sb.blocks_count c)) [
        | inl past ↦ rw (past, block_vec, read_block)
        | inr within ↦ rw (
          within,
          device.read-other 2 2 _ _ raw_2 (replicate sb.block_size 0) disk wrote (omega arith)
              a.sectors (inl behind),
          block_vec,
          read_block,
        )
      ]
