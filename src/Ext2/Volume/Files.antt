-- ===== src/Ext2/Volume/Files.antt =====
-- ext2/src/volume.rs: a range of a file's bytes written, block by block. Each turn takes one byte at
-- least, so that the loop runs on fuel of the bytes that are left.
use rust_so_kernel.Prelude.{
  ℕ, zero, suc, ◌+◌, ◌-◌, ◌/◌, ◌%◌, min, List, length, take, drop, ltb, ◌==◌, if◌then◌else◌,
}
use rust_so_kernel.Ext2.{halted, copy_at}
use rust_so_kernel.Ext2.Device.{BlockDevice}
use rust_so_kernel.Ext2.Superblock.{Superblock}
use rust_so_kernel.Ext2.Inode.{RawInode, size, set_size}
use rust_so_kernel.Ext2.Volume.{block_vec}
use rust_so_kernel.Ext2.Volume.Actions.{Action, ◌>>=◌, ◌>>◌, look, done, result, write_block}
use rust_so_kernel.Ext2.Volume.Allocation.{write_inode}
use rust_so_kernel.Ext2.Volume.Mapping.{block_for_index_alloc}

module _ (device : BlockDevice) (sb : Superblock) where
  -- The first bytes of `bytes` that fit into the block at `file_pos`.
  unfoldable pub write_piece : RawInode → ℕ → List ℕ → Action device.Disk RawInode
  write_piece raw file_pos piece = do
    (block_num, raw_1) ← block_for_index_alloc device sb raw (file_pos / sb.block_size % 4294967296)
    let whole : Action device.Disk (Unit {0}) = write_block device sb block_num piece
    let partial : Action device.Disk (Unit {0}) = do
      block_buf ← look (block_vec device sb block_num)
      patched ← result (copy_at block_buf (file_pos % sb.block_size) piece)
      write_block device sb block_num patched
    (if length piece == sb.block_size then whole else partial)
    done raw_1

  unfoldable pub write_loop : ℕ → RawInode → ℕ → List ℕ → Action device.Disk RawInode
  write_loop zero raw file_pos bytes = if length bytes == 0 then done raw else result halted
  write_loop (suc fuel) raw file_pos bytes =
      let n = min (sb.block_size - file_pos % sb.block_size) (length bytes) in
      let rest = λ (r : RawInode). write_loop fuel r (file_pos + n) (drop n bytes) in
      let step = write_piece raw file_pos (take n bytes) >>= rest in
      if length bytes == 0 then done raw else step

  -- With the inode as it is written back.
  unfoldable pub write_file_range : ℕ → RawInode → ℕ → List ℕ → Action device.Disk (ℕ × RawInode)
  write_file_range ino raw offset bytes =
      let new_size = offset + length bytes in
      let write : Action device.Disk (ℕ × RawInode) = do
        raw_1 ← write_loop (length bytes) raw offset bytes
        let raw_2 = if ltb (size raw_1) new_size then set_size new_size raw_1 else raw_1
        write_inode device sb ino raw_2
        done (length bytes, raw_2)
      in if length bytes == 0
        then done (0, raw)
        else if sb.block_size == 0
        then result halted
        else write
