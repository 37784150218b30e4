-- ===== src/Ext2/Listing.antt =====
-- ext2/src/dir.rs and volume.rs: what is read of an inode for listing a directory and for marking
-- its blocks.
use rust_so_kernel.Prelude.{
  ℕ, zero, suc, ◌+◌, ◌-◌, ◌*◌, ◌/◌, ◌%◌, Option, none, some, List, [], ◌∷◌, ◌++◌, ◌==◌,
  if◌then◌else◌,
}
use rust_so_kernel.Ext2.{Outcome, ok, halted, le_at, ◌>>=◌}
use rust_so_kernel.Ext2.Device.{BlockDevice}
use rust_so_kernel.Ext2.Superblock.{Superblock}
use rust_so_kernel.Ext2.Inode.{RawInode, size, i_block}
use rust_so_kernel.Ext2.Volume.{block_vec, block_for_index}
use rust_so_kernel.Ext2.Records.{DirEntry, list_block}

module _ (device : BlockDevice) (sb : Superblock) where
  -- The number of blocks of a directory, a sum of 64 bits cut to 32.
  abbrev pub num_blocks : RawInode → ℕ
  num_blocks raw =
      (size raw + sb.block_size - 1) % 18446744073709551616 / sb.block_size % 4294967296

  abbrev pub entries_of : Option ℕ → device.Disk → Outcome (List DirEntry)
  entries_of none disk = ok []
  entries_of (some block_num) disk = do
    buf ← block_vec device sb block_num disk
    ok (list_block buf 0)

  -- The entries of the blocks from `index`, with `n` left.
  unfoldable pub entries_from : RawInode → ℕ → ℕ → device.Disk → Outcome (List DirEntry)
  entries_from raw zero index disk = ok []
  entries_from raw (suc n) index disk = do
    found ← block_for_index device sb raw index disk
    entries ← entries_of found disk
    more ← entries_from raw n (suc index) disk
    ok (entries ++ more)

  unfoldable pub read_dir_entries : RawInode → device.Disk → Outcome (List DirEntry)
  read_dir_entries raw disk =
      if sb.block_size == 0 then halted else entries_from raw (num_blocks raw) 0 disk

  -- The pointers of a block from the slot `idx`, with `n` left, and what `below` finds under each.
  unfoldable pub pointers_from : (ℕ → Outcome (List ℕ)) → List ℕ → ℕ → ℕ → Outcome (List ℕ)
  pointers_from below buf zero idx = ok []
  pointers_from below buf (suc n) idx = do
    b ← le_at buf (idx * 4) 4
    here ← if b == 0 then ok [] else below b
    more ← pointers_from below buf n (suc idx)
    ok (here ++ more)

  abbrev pub leaf : ℕ → Outcome (List ℕ)
  leaf b = ok (b ∷ [])

  unfoldable pub visit_pointer_block_targets : ℕ → device.Disk → Outcome (List ℕ)
  visit_pointer_block_targets block_num disk = do
    buf ← block_vec device sb block_num disk
    pointers_from leaf buf (sb.block_size / 4) 0

  -- A pointer block and what it points at.
  unfoldable pub singly : device.Disk → ℕ → Outcome (List ℕ)
  singly disk b = do targets ← visit_pointer_block_targets b disk; ok (b ∷ targets)

  unfoldable pub doubly : device.Disk → ℕ → Outcome (List ℕ)
  doubly disk b = do
    buf ← block_vec device sb b disk
    targets ← pointers_from (singly disk) buf (sb.block_size / 4) 0
    ok (b ∷ targets)

  unfoldable pub triply : device.Disk → ℕ → Outcome (List ℕ)
  triply disk b = do
    buf ← block_vec device sb b disk
    targets ← pointers_from (doubly disk) buf (sb.block_size / 4) 0
    ok (b ∷ targets)

  abbrev pub slot : RawInode → (ℕ → Outcome (List ℕ)) → ℕ → Outcome (List ℕ)
  slot raw below i = if i_block i raw == 0 then ok [] else below (i_block i raw)

  unfoldable pub direct_from : RawInode → ℕ → ℕ → List ℕ
  direct_from raw zero i = []
  direct_from raw (suc n) i =
      let more = direct_from raw n (suc i) in
      if i_block i raw == 0 then more else i_block i raw ∷ more

  -- The blocks in the order in which `visit` is called on them, for a `visit` that does not write.
  unfoldable pub visit_inode_blocks : RawInode → device.Disk → Outcome (List ℕ)
  visit_inode_blocks raw disk = do
    single ← slot raw (singly disk) 12
    double ← slot raw (doubly disk) 13
    triple ← slot raw (triply disk) 14
    ok (direct_from raw 12 0 ++ (single ++ (double ++ triple)))
