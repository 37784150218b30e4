-- ===== src/Ext2/Volume/Actions.antt =====
-- ext2/src/volume.rs: the writes. An action takes the disk and returns its result with the disk it
-- leaves, also where it fails.
use rust_so_kernel.Prelude.{ℕ, ◌+◌, Bool, true, false, List, leb, if◌then◌else◌, replicate}
use rust_so_kernel.Ext2.{Outcome, ok, err, halted, io}
use rust_so_kernel.Ext2.Device.{BlockDevice}
use rust_so_kernel.Ext2.Superblock.{Superblock, bgd_location}
use rust_so_kernel.Ext2.Volume.{add_at, or_io, lba_of, sectors_per_block, block_vec}

abbrev pub Action {ℓ} : Type 0 → Type ℓ → Type ℓ
Action S A = S → Outcome A × S

-- `?` on the result of an action.
abbrev pub and_then : {S A B : Type 0} → Outcome A × S → (A → Action S B) → Outcome B × S
and_then (ok a, s) f = f a s
and_then (err e, s) f = (err e, s)
and_then (halted, s) f = (halted, s)

infixl 5 ◌>>=◌
abbrev pub ◌>>=◌ : {S A B : Type 0} → Action S A → (A → Action S B) → Action S B
(m >>= f) s = and_then (m s) f

-- A read, or a computation, as an action.
abbrev pub look : {S A : Type 0} → (S → Outcome A) → Action S A
look read s = (read s, s)

abbrev pub done : {S A : Type 0} → A → Action S A
done a s = (ok a, s)

abbrev pub result : {S A : Type 0} → Outcome A → Action S A
result r s = (r, s)

-- `map_err(|_| Io)` on a device write.
abbrev pub written : {S : Type 0} → Bool × S → Outcome (Unit {0}) × S
written (true, s) = (ok tt, s)
written (false, s) = (err io, s)

infixl 5 ◌>>◌
abbrev pub ◌>>◌ : {S A B : Type 0} → Action S A → Action S B → Action S B
m >> k = m >>= λ _. k

module _ (device : BlockDevice) (sb : Superblock) where
  unfoldable pub write_block : ℕ → List ℕ → Action device.Disk (Unit {0})
  write_block block_num buf disk =
      if leb sb.blocks_count block_num
      then (err io, disk)
      else written
          (device.write_sectors (lba_of device sb block_num) (sectors_per_block device sb) buf disk)

  unfoldable pub adjust_bgd_counts : ℕ → ℕ → ℕ → ℕ → Action device.Disk (Unit {0})
  adjust_bgd_counts group free_blocks_delta free_inodes_delta used_dirs_delta = do
    (blk, off) ← result (bgd_location sb group)
    buf ← look (block_vec device sb blk)
    buf_1 ← result (add_at (off + 12) 2 free_blocks_delta buf)
    buf_2 ← result (add_at (off + 14) 2 free_inodes_delta buf_1)
    buf_3 ← result (add_at (off + 16) 2 used_dirs_delta buf_2)
    write_block blk buf_3

  unfoldable pub adjust_sb_counts : ℕ → ℕ → Action device.Disk (Unit {0})
  adjust_sb_counts free_blocks_delta free_inodes_delta = do
    raw ← look (λ disk. or_io (device.read_sectors 2 2 (replicate 1024 0) disk))
    raw_1 ← result (add_at 12 4 free_blocks_delta raw)
    raw_2 ← result (add_at 16 4 free_inodes_delta raw_1)
    λ disk. written (device.write_sectors 2 2 raw_2 disk)
