-- ===== src/Ext2/Volume/Mapping.antt =====
-- ext2/src/volume.rs: `block_for_index_alloc`, the block of a file at an index, allocated with the
-- pointer blocks on the way where it is missing.
use rust_so_kernel.Prelude.{ℕ, ◌-◌, ◌/◌, ◌%◌, Option, none, some, ltb, ◌==◌, if◌then◌else◌, to_le}
use rust_so_kernel.Ext2.{Outcome, ok, err, no_space, too_large, le_at, copy_at, mul_u32}
use rust_so_kernel.Ext2.Device.{BlockDevice}
use rust_so_kernel.Ext2.Superblock.{Superblock}
use rust_so_kernel.Ext2.Inode.{RawInode, i_block, set_i_block}
use rust_so_kernel.Ext2.Volume.{block_vec}
use rust_so_kernel.Ext2.Volume.Actions.{Action, ◌>>=◌, ◌>>◌, look, done, result, write_block}
use rust_so_kernel.Ext2.Volume.Allocation.{alloc_block}

-- `ok_or(NoSpace)`
abbrev pub or_no_space : Option ℕ → Outcome ℕ
or_no_space none = err no_space
or_no_space (some b) = ok b

module _ (device : BlockDevice) (sb : Superblock) where
  unfoldable pub new_block : Action device.Disk ℕ
  new_block = alloc_block device sb >>= λ found. result (or_no_space found)

  unfoldable pub get_or_alloc_ptr : ℕ → ℕ → Action device.Disk ℕ
  get_or_alloc_ptr container_block index = do
    buf ← look (block_vec device sb container_block)
    let off = mul_u32 index 4
    existing ← result (le_at buf off 4)
    let allocate : Action device.Disk ℕ = do
      nb ← new_block
      patched ← result (copy_at buf off (to_le 4 nb))
      write_block device sb container_block patched
      done nb
    if existing == 0 then allocate else done existing

  -- The pointer in the inode's slot, allocated if it is 0, with the inode after it.
  unfoldable pub get_or_alloc_slot : ℕ → RawInode → Action device.Disk (ℕ × RawInode)
  get_or_alloc_slot i raw =
      let b = i_block i raw in
      let allocate = new_block >>= λ nb. done (nb, set_i_block i nb raw) in
      if b == 0 then allocate else done (b, raw)

  -- With the inode that the caller has to persist; an error drops the caller's copy.
  unfoldable pub block_for_index_alloc : RawInode → ℕ → Action device.Disk (ℕ × RawInode)
  block_for_index_alloc raw index =
      let ptrs_per_block = sb.block_size / 4 in
      let indirect_index = index - 12 in
      let dbl_index = indirect_index - ptrs_per_block in
      let dbl_capacity = mul_u32 ptrs_per_block ptrs_per_block in
      let tpl_index = dbl_index - dbl_capacity in
      let tpl_capacity = mul_u32 dbl_capacity ptrs_per_block in
      let rem = tpl_index % dbl_capacity in
      if ltb index 12
      then get_or_alloc_slot index raw
      else if ltb indirect_index ptrs_per_block
      then (do
        (b, raw_1) ← get_or_alloc_slot 12 raw
        found ← get_or_alloc_ptr b indirect_index
        done (found, raw_1))
      else if ltb dbl_index dbl_capacity
      then (do
        (b, raw_1) ← get_or_alloc_slot 13 raw
        first_level ← get_or_alloc_ptr b (dbl_index / ptrs_per_block)
        found ← get_or_alloc_ptr first_level (dbl_index % ptrs_per_block)
        done (found, raw_1))
      else if ltb tpl_index tpl_capacity
      then (do
        (b, raw_1) ← get_or_alloc_slot 14 raw
        first_level ← get_or_alloc_ptr b (tpl_index / dbl_capacity)
        second_level ← get_or_alloc_ptr first_level (rem / ptrs_per_block)
        found ← get_or_alloc_ptr second_level (rem % ptrs_per_block)
        done (found, raw_1))
      else result (err too_large)
