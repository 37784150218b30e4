-- ===== src/Ext2/Volume/Reading.antt =====
-- ext2/src/volume.rs: a range of a file's bytes read block by block. Each turn takes one byte at
-- least, so that the loop runs on fuel of the bytes that are left.
use rust_so_kernel.Prelude.{
  ℕ, zero, suc, ◌+◌, ◌-◌, ◌/◌, ◌%◌, min, Option, none, some, List, [], ◌++◌, ◌==◌, if◌then◌else◌,
  replicate,
}
use rust_so_kernel.Ext2.{Outcome, ok, halted, slice, ◌>>=◌}
use rust_so_kernel.Ext2.Device.{BlockDevice}
use rust_so_kernel.Ext2.Superblock.{Superblock}
use rust_so_kernel.Ext2.Inode.{RawInode}
use rust_so_kernel.Ext2.Volume.{block_vec, block_for_index}

module _ (device : BlockDevice) (sb : Superblock) where
  -- `n` bytes of the block of a file at `file_pos`; a hole reads as zeros.
  abbrev pub piece_of : Option ℕ → ℕ → ℕ → device.Disk → Outcome (List ℕ)
  piece_of none block_off n disk = ok (replicate n 0)
  piece_of (some block_num) block_off n disk = do
    block_buf ← block_vec device sb block_num disk
    slice block_buf block_off n

  unfoldable pub read_piece : RawInode → ℕ → ℕ → device.Disk → Outcome (List ℕ)
  read_piece raw file_pos n disk = do
    found ← block_for_index device sb raw (file_pos / sb.block_size % 4294967296) disk
    piece_of found (file_pos % sb.block_size) n disk

  unfoldable pub read_loop : ℕ → RawInode → ℕ → ℕ → device.Disk → Outcome (List ℕ)
  read_loop zero raw file_pos left disk = if left == 0 then ok [] else halted
  read_loop (suc fuel) raw file_pos left disk =
      let n = min (sb.block_size - file_pos % sb.block_size) left in
      let rest = read_loop fuel raw (file_pos + n) (left - n) disk in
      let step : Outcome (List ℕ) = do
        piece ← read_piece raw file_pos n disk
        bytes ← rest
        ok (piece ++ bytes)
      in if left == 0 then ok [] else step

  -- The bytes that the buffer of `len` bytes holds at the end.
  unfoldable pub read_file_range : RawInode → ℕ → ℕ → device.Disk → Outcome (List ℕ)
  read_file_range raw offset len disk =
      if len == 0
      then ok []
      else if sb.block_size == 0
      then halted
      else read_loop len raw offset len disk
