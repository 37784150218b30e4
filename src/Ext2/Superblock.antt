-- ===== src/Ext2/Superblock.antt =====
-- ext2/src/superblock.rs and bgd.rs: the superblock and the block group descriptors.
pub mod Checks
use rust_so_kernel.Prelude.{
  ℕ, ◌+◌, ◌-◌, ◌*◌, ◌/◌, ◌%◌, ◌^◌, List, length, leb, ltb, ◌==◌, not, max, if◌then◌else◌, part,
  from_le,
}
use rust_so_kernel.Prelude.Bits.{bit_clear}
use rust_so_kernel.Ext2.{
  Outcome, ok, err, halted, ◌>>=◌, io, bad_magic, unsupported_feature, add_u32, sub_u32, mul_u32,
}

abbrev pub root_ino : ℕ
root_ino = 2

pub record Superblock : Type 0 where
  pub block_size : ℕ
  pub inodes_count : ℕ
  pub blocks_count : ℕ
  pub inodes_per_group : ℕ
  pub blocks_per_group : ℕ
  pub first_data_block : ℕ
  pub inode_size : ℕ
  pub bgdt_block : ℕ
  pub num_groups : ℕ
  pub first_ino : ℕ

-- A field that revision 0 does not have, where `fixed` stands for it.
unfoldable pub rev_field : ℕ → ℕ → ℕ → List ℕ → ℕ
rev_field fixed off n raw =
    let rev_level = from_le (part 76 4 raw) in
    if rev_level == 0 then fixed else from_le (part off n raw)

-- The fields of an accepted superblock. The offsets are below the length that is checked first;
-- `1024 << n` shifts by `n % 32`.
unfoldable pub geometry : List ℕ → Superblock
geometry raw =
    let log_block_size = from_le (part 24 4 raw) in
    let blocks_per_group = from_le (part 32 4 raw) in
    let inodes_per_group = from_le (part 40 4 raw) in
    let blocks_count = from_le (part 4 4 raw) in
    let first_data_block = from_le (part 20 4 raw) in
    let inode_size = rev_field 128 88 2 raw in
    let first_ino = rev_field 11 84 4 raw in
    let num_groups = sub_u32 (add_u32 blocks_count blocks_per_group) 1 / blocks_per_group in
    record {
      block_size = 1024 * 2 ^ (log_block_size % 32) % 4294967296;
      inodes_count = from_le (part 0 4 raw);
      blocks_count = blocks_count;
      inodes_per_group = max inodes_per_group 1;
      blocks_per_group = max blocks_per_group 1;
      first_data_block = first_data_block;
      inode_size = if inode_size == 0 then 128 else inode_size;
      bgdt_block = add_u32 first_data_block 1;
      num_groups = max num_groups 1;
      first_ino = if first_ino == 0 then 11 else first_ino;
    }

-- `Superblock::parse`; the number of groups is a division by the blocks per group.
unfoldable pub parse_superblock : List ℕ → Outcome Superblock
parse_superblock raw =
    let magic = from_le (part 56 2 raw) in
    let blocks_per_group = from_le (part 32 4 raw) in
    let feature_incompat = rev_field 0 96 4 raw in
    if ltb (length raw) 1024
    then err io
    else if not (magic == 61267)
    then err bad_magic
    else if not (bit_clear 1 feature_incompat == 0)
    then err unsupported_feature
    else if blocks_per_group == 0
    then halted
    else ok (geometry raw)

pub record BlockGroupDesc : Type 0 where
  pub block_bitmap : ℕ
  pub inode_bitmap : ℕ
  pub inode_table : ℕ
  pub free_blocks : ℕ
  pub free_inodes : ℕ

unfoldable pub parse_bgd : List ℕ → Outcome BlockGroupDesc
parse_bgd buf =
    if leb 16 (length buf)
    then ok (record {
      block_bitmap = from_le (part 0 4 buf);
      inode_bitmap = from_le (part 4 4 buf);
      inode_table = from_le (part 8 4 buf);
      free_blocks = from_le (part 12 2 buf);
      free_inodes = from_le (part 14 2 buf);
    })
    else halted

unfoldable pub bgd_location : Superblock → ℕ → Outcome (ℕ × ℕ)
bgd_location sb group =
    let bgd_per_block = sb.block_size / 32 in
    if bgd_per_block == 0
    then halted
    else ok (add_u32 sb.bgdt_block (group / bgd_per_block), mul_u32 (group % bgd_per_block) 32)
