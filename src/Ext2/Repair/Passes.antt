-- ===== src/Ext2/Repair/Passes.antt =====
-- ext2/src/repair.rs: the two passes at mount time. A bitmap's sweep runs on the bits of its group.
use rust_so_kernel.Prelude.{
  ℕ, zero, suc, ◌+◌, ◌-◌, ◌/◌, Bool, false, not, ◌&&◌, ◌||◌, List, ◌==◌, if◌then◌else◌, replicate,
}
use rust_so_kernel.Ext2.{Outcome, ok, err, halted, add_u32, mul_u32, sub_u32, le_at}
use rust_so_kernel.Ext2.Bitmap.{bit_at, clear_bit, count_free_bits, bit_is_set}
use rust_so_kernel.Ext2.Device.{BlockDevice}
use rust_so_kernel.Ext2.Superblock.{Superblock, BlockGroupDesc, root_ino}
use rust_so_kernel.Ext2.Volume.{block_vec, read_bgd, blocks_in_group, inodes_in_group, or_io}
use rust_so_kernel.Ext2.Volume.Actions.{
  Action, ◌>>=◌, ◌>>◌, look, done, result, write_block, adjust_bgd_counts, adjust_sb_counts,
}
use rust_so_kernel.Ext2.Repair.{Marks, mark_bit, mark_bit_1based, bit_set_1based, mark_reachable}

pub record ReconcileReport : Type 0 where
  pub bgd_drift : Bool
  pub sb_drift : Bool
  pub total_free_blocks : ℕ
  pub total_free_inodes : ℕ

-- The bits `first..first + n`, from the lowest.
abbrev pub mark_range : List ℕ → ℕ → ℕ → List ℕ
mark_range bitmap first zero = bitmap
mark_range bitmap first (suc n) = mark_range (mark_bit bitmap first) (suc first) n

abbrev pub mark_inodes : List ℕ → ℕ → ℕ → List ℕ
mark_inodes bitmap first zero = bitmap
mark_inodes bitmap first (suc n) = mark_inodes (mark_bit_1based bitmap first) (suc first) n

-- The bits from `bit`, with `n` left: those that are set and not used are cleared, and counted.
unfoldable pub sweep_loop : (ℕ → Bool) → List ℕ → ℕ → ℕ → Outcome (List ℕ × ℕ)
sweep_loop is_used bitmap bit zero = ok (bitmap, 0)
sweep_loop is_used bitmap bit (suc n) =
    let keep = sweep_loop is_used bitmap (suc bit) n in
    let clear = rust_so_kernel.Ext2.◌>>=◌ (clear_bit bitmap bit) (λ cleared.
      rust_so_kernel.Ext2.◌>>=◌ (sweep_loop is_used cleared (suc bit) n)
        (λ swept. ok (swept.0, swept.1 + 1))) in
    rust_so_kernel.Ext2.◌>>=◌ (bit_at bitmap bit)
      (λ used. if used then (if is_used bit then keep else clear) else keep)

module _ (device : BlockDevice) (sb : Superblock) where
  -- The groups from `group`, with `n` left and the totals so far.
  unfoldable pub reconcile_from : ℕ → ℕ → ReconcileReport → Action device.Disk ReconcileReport
  reconcile_from zero group report = done report
  reconcile_from (suc n) group report = do
    bgd ← look (read_bgd device sb group)
    block_bitmap ← look (block_vec device sb bgd.block_bitmap)
    real_free_blocks ← result (count_free_bits block_bitmap (blocks_in_group device sb group))
    inode_bitmap ← look (block_vec device sb bgd.inode_bitmap)
    real_free_inodes ← result (count_free_bits inode_bitmap (inodes_in_group device sb group))
    let drift =
        not (real_free_blocks == bgd.free_blocks) || not (real_free_inodes == bgd.free_inodes)
    let fix : Action device.Disk (Unit {0}) =
        adjust_bgd_counts device sb group (sub_u32 real_free_blocks bgd.free_blocks)
          (sub_u32 real_free_inodes bgd.free_inodes) 0
    (if drift then fix else done tt)
    reconcile_from n (suc group) (record {
      bgd_drift = report.bgd_drift || drift;
      sb_drift = false;
      total_free_blocks = add_u32 report.total_free_blocks real_free_blocks;
      total_free_inodes = add_u32 report.total_free_inodes real_free_inodes;
    })

  unfoldable pub reconcile_free_counts : Action device.Disk ReconcileReport
  reconcile_free_counts = do
    sb_raw ← look (λ disk. or_io (device.read_sectors 2 2 (replicate 1024 0) disk))
    sb_free_blocks ← result (le_at sb_raw 12 4)
    sb_free_inodes ← result (le_at sb_raw 16 4)
    report ← reconcile_from sb.num_groups 0 (record {
      bgd_drift = false;
      sb_drift = false;
      total_free_blocks = 0;
      total_free_inodes = 0;
    })
    let drift =
        not (report.total_free_blocks == sb_free_blocks)
        || not (report.total_free_inodes == sb_free_inodes)
    let fix : Action device.Disk (Unit {0}) =
        adjust_sb_counts device sb (sub_u32 report.total_free_blocks sb_free_blocks)
          (sub_u32 report.total_free_inodes sb_free_inodes)
    (if drift then fix else done tt)
    done (record {
      bgd_drift = report.bgd_drift;
      sb_drift = drift;
      total_free_blocks = report.total_free_blocks;
      total_free_inodes = report.total_free_inodes;
    })

  abbrev pub bgd_per_block : ℕ
  bgd_per_block = sb.block_size / 32

  abbrev pub bgdt_blocks : ℕ
  bgdt_blocks = (sb.num_groups + bgd_per_block - 1) / bgd_per_block

  abbrev pub inodes_per_block : ℕ
  inodes_per_block = sb.block_size / sb.inode_size

  -- The bitmaps, the inode table and the leading blocks of a group.
  unfoldable pub seed_group : ℕ → BlockGroupDesc → List ℕ → List ℕ
  seed_group group bgd used =
      let inode_table_blocks = (sb.inodes_per_group + inodes_per_block - 1) / inodes_per_block in
      let group_start = add_u32 sb.first_data_block (mul_u32 group sb.blocks_per_group) in
      let bitmaps = mark_bit (mark_bit used bgd.block_bitmap) bgd.inode_bitmap in
      let table = mark_range bitmaps bgd.inode_table inode_table_blocks in
      mark_range table group_start (1 + bgdt_blocks)

  unfoldable pub seed_from : ℕ → ℕ → List ℕ → Action device.Disk (List ℕ)
  seed_from zero group used = done used
  seed_from (suc n) group used = do
    bgd ← look (read_bgd device sb group)
    seed_from n (suc group) (seed_group group bgd used)

  -- The fixed metadata: boot block, superblock, descriptor table, and each group's own.
  unfoldable pub seed_metadata : Action device.Disk (List ℕ)
  seed_metadata =
      let empty = replicate ((sb.blocks_count + 7) / 8) 0 in
      let leading = mark_range empty 0 (sb.first_data_block + 1) in
      let table = mark_range leading sb.bgdt_block bgdt_blocks in
      if bgd_per_block == 0 || inodes_per_block == 0
      then result halted
      else seed_from sb.num_groups 0 table

  unfoldable pub sweep_from : Marks → ℕ → ℕ → ℕ × ℕ → Action device.Disk (ℕ × ℕ)
  sweep_from marks zero group freed = done freed
  sweep_from marks (suc n) group (freed_blocks, freed_inodes) = do
    bgd ← look (read_bgd device sb group)
    block_bitmap ← look (block_vec device sb bgd.block_bitmap)
    let block_used : ℕ → Bool = λ bit.
        bit_is_set marks.used_blocks
          (add_u32 (add_u32 sb.first_data_block (mul_u32 group sb.blocks_per_group)) bit)
    (blocks, cleared) ←
        result (sweep_loop block_used block_bitmap 0 (blocks_in_group device sb group))
    (if cleared == 0 then done tt else write_block device sb bgd.block_bitmap blocks)
    inode_bitmap ← look (block_vec device sb bgd.inode_bitmap)
    let inode_used : ℕ → Bool = λ bit.
        bit_set_1based marks.used_inodes
          (add_u32 (add_u32 (mul_u32 group sb.inodes_per_group) bit) 1)
    (inodes, cleared') ←
        result (sweep_loop inode_used inode_bitmap 0 (inodes_in_group device sb group))
    (if cleared' == 0 then done tt else write_block device sb bgd.inode_bitmap inodes)
    sweep_from marks n (suc group) (freed_blocks + cleared, freed_inodes + cleared')

  -- The walk comes before the marks of the reserved inodes, and the sweep after both.
  unfoldable pub reclaim_orphans : Action device.Disk (ℕ × ℕ)
  reclaim_orphans = do
    used_blocks ← seed_metadata
    let empty = replicate ((sb.inodes_count + 7) / 8) 0
    marks ← look (λ disk.
        mark_reachable device sb 64 disk root_ino
          (record { used_inodes = empty; used_blocks = used_blocks }))
    let reserved : Marks = record {
      used_inodes = mark_inodes marks.used_inodes 1 (sb.first_ino - 1);
      used_blocks = marks.used_blocks;
    }
    freed ← sweep_from reserved sb.num_groups 0 (0, 0)
    (if freed.0 == 0 && (freed.1 == 0) then done tt else (reconcile_free_counts >> done tt))
    done freed
