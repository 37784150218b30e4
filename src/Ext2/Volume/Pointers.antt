-- ===== src/Ext2/Volume/Pointers.antt =====
-- ext2/src/volume.rs: the block that `block_for_index_alloc` returns is the one that
-- `block_for_index` finds afterwards.
use rust_so_kernel.Ext2.Superblock.{Superblock}
use rust_so_kernel.Ext2.Volume.Claims.{Allocation}
