-- ===== src/Ext2/Volume.antt =====
-- ext2/src/volume.rs: the reads of a mounted file system, over the device and the superblock.
pub mod Actions
pub mod Allocation
pub mod Mapping
pub mod Files
pub mod Reading
pub mod Blocks
pub mod Inodes
pub mod Counters
pub mod Claims
pub mod Pointers
pub mod Bytewise
use rust_so_kernel.Prelude.{
  ℕ, ◌+◌, ◌-◌, ◌*◌, ◌/◌, ◌%◌, min, Option, none, some, List, length, leb, ltb, ◌==◌, if◌then◌else◌,
  drop, to_le, replicate, ◌||◌,
}
use rust_so_kernel.Ext2.{
  Outcome, ok, err, halted, ◌>>=◌, io, slice, le_at, copy_at, add_u32, mul_u32,
}
use rust_so_kernel.Ext2.Device.{BlockDevice}
use rust_so_kernel.Ext2.Superblock.{
  Superblock, parse_superblock, BlockGroupDesc, parse_bgd, bgd_location,
}
use rust_so_kernel.Ext2.Inode.{RawInode, i_block}

-- `map_err(|_| Io)`
abbrev pub or_io {ℓ} : {A : Type ℓ} → Option A → Outcome A
or_io none = err io
or_io (some a) = ok a

-- A block number on disk, where 0 is a hole.
abbrev pub pointer : ℕ → Option ℕ
pointer b = if b == 0 then none else some b

unfoldable pub mount : (device : BlockDevice) → device.Disk → Outcome Superblock
mount device disk = do
  raw ← or_io (device.read_sectors 2 2 (replicate 1024 0) disk)
  parse_superblock raw

-- `new = cur + delta` in a field of `n` bytes, where the delta is a signed word of 32 bits.
unfoldable pub add_at : ℕ → ℕ → ℕ → List ℕ → Outcome (List ℕ)
add_at off n delta buf =
    if delta == 0 then ok buf else do cur ← le_at buf off n; copy_at buf off (to_le n (cur + delta))

module _ (device : BlockDevice) (sb : Superblock) where
  -- `(block_size / SECTOR_SIZE) as u8`
  abbrev pub sectors_per_block : ℕ
  sectors_per_block = sb.block_size / 512 % 256

  abbrev pub lba_of : ℕ → ℕ
  lba_of block_num = mul_u32 block_num sectors_per_block

  unfoldable pub read_block : ℕ → List ℕ → device.Disk → Outcome (List ℕ)
  read_block block_num buf disk =
      if leb sb.blocks_count block_num
      then err io
      else or_io (device.read_sectors (lba_of block_num) sectors_per_block buf disk)

  unfoldable pub block_vec : ℕ → device.Disk → Outcome (List ℕ)
  block_vec block_num disk = read_block block_num (replicate sb.block_size 0) disk

  unfoldable pub read_bgd : ℕ → device.Disk → Outcome BlockGroupDesc
  read_bgd group disk = do
    (blk, off) ← bgd_location sb group
    buf ← block_vec blk disk
    parse_bgd (drop off buf)

  unfoldable pub blocks_in_group : ℕ → ℕ
  blocks_in_group group =
      let start = add_u32 sb.first_data_block (mul_u32 group sb.blocks_per_group) in
      min (sb.blocks_count - start) sb.blocks_per_group

  unfoldable pub inodes_in_group : ℕ → ℕ
  inodes_in_group group =
      let start = mul_u32 group sb.inodes_per_group in
      min (sb.inodes_count - start) sb.inodes_per_group

  unfoldable pub inode_location : ℕ → device.Disk → Outcome (ℕ × ℕ)
  inode_location ino disk =
      let group = (ino - 1) / sb.inodes_per_group in
      let index_in_group = (ino - 1) % sb.inodes_per_group in
      let inodes_per_block = sb.block_size / sb.inode_size in
      if ltb ino 1 || ltb sb.inodes_count ino
      then err io
      else if leb sb.num_groups group
      then err io
      else do
        (bgd_block, bgd_off) ← bgd_location sb group
        bgd_buf ← block_vec bgd_block disk
        inode_table_block ← le_at bgd_buf (bgd_off + 8) 4
        let table_block = add_u32 inode_table_block (index_in_group / inodes_per_block)
        let offset_in_block = mul_u32 (index_in_group % inodes_per_block) sb.inode_size
        if inodes_per_block == 0 then halted else ok (table_block, offset_in_block)

  unfoldable pub read_inode : ℕ → device.Disk → Outcome RawInode
  read_inode ino disk = do
    (table_block, offset_in_block) ← inode_location ino disk
    block_buf ← block_vec table_block disk
    slice block_buf offset_in_block sb.inode_size

  unfoldable pub read_block_ptr : ℕ → ℕ → device.Disk → Outcome (Option ℕ)
  read_block_ptr block_num index disk = do
    buf ← block_vec block_num disk
    b ← le_at buf (mul_u32 index 4) 4
    ok (pointer b)

  -- One more level of pointers: a hole there is a hole below.
  abbrev pub through : Option ℕ → (ℕ → Outcome (Option ℕ)) → Outcome (Option ℕ)
  through none below = ok none
  through (some b) below = below b

  -- The products wrap around.
  unfoldable pub block_for_index : RawInode → ℕ → device.Disk → Outcome (Option ℕ)
  block_for_index raw index disk =
      let ptrs_per_block = sb.block_size / 4 in
      let indirect_index = index - 12 in
      let dbl_index = indirect_index - ptrs_per_block in
      let dbl_capacity = mul_u32 ptrs_per_block ptrs_per_block in
      let tpl_index = dbl_index - dbl_capacity in
      let tpl_capacity = mul_u32 dbl_capacity ptrs_per_block in
      if ltb index 12
      then ok (pointer (i_block index raw))
      else if ltb indirect_index ptrs_per_block
      then through (pointer (i_block 12 raw)) (λ b. read_block_ptr b indirect_index disk)
      else if ltb dbl_index dbl_capacity
      then through (pointer (i_block 13 raw)) (λ b. do
        first_level ← read_block_ptr b (dbl_index / ptrs_per_block) disk
        through first_level (λ f. read_block_ptr f (dbl_index % ptrs_per_block) disk))
      else if ltb tpl_index tpl_capacity
      then through (pointer (i_block 14 raw)) (λ b. do
        let rem = tpl_index % dbl_capacity
        first_level ← read_block_ptr b (tpl_index / dbl_capacity) disk
        through first_level (λ f. do
          second_level ← read_block_ptr f (rem / ptrs_per_block) disk
          through second_level (λ s. read_block_ptr s (rem % ptrs_per_block) disk)))
      else ok none
