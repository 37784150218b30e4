-- ===== src/Examples/Disks.antt =====
-- A disk in memory with a small file system: blocks of one sector, of which 2 and 3 are the
-- superblock, 4 the descriptor table, 5 and 6 the bitmaps, 7 the inode table, 8 the root directory
-- and 9 a file.
use rust_so_kernel.Prelude.{
  ℕ, ◌≡◌, refl, some, Option, List, [], ◌∷◌, ◌++◌, arith, patch, to_le, replicate, Bool, ◌==◌,
}
use rust_so_kernel.Ext2.{Outcome, ok, le_at, slice, copy_at}
use rust_so_kernel.Ext2.Superblock.{Superblock, bgd_location, parse_bgd}
use rust_so_kernel.Ext2.Device.{new_disk, mem_read, mem_write, sectors_of}
use rust_so_kernel.Ext2.Device.Memory.{mem_disk}
use rust_so_kernel.Ext2.Dirent.{record_bytes, parse, dirent_len}
use rust_so_kernel.Ext2.Dirent.RoundTrip.{parse_written}
use rust_so_kernel.Ext2.Inode.{
  i_block, size, is_reg, is_dir, i_mode, is_symlink, is_fast_symlink, has_block_pointers,
}
use rust_so_kernel.Ext2.Records.{place_loop, DirEntry, list_block, list_loop}
use rust_so_kernel.Ext2.Records.Chain.{IsChain, chain_record, chain_end}
use rust_so_kernel.Ext2.Records.Fresh.{IsListable, Placed}
use rust_so_kernel.Ext2.Records.Insertion.{place_loop_inserts}
use mathlib.Core.List.{Memᴰ}
use rust_so_kernel.Ext2.Listing.{read_dir_entries, entries_from, visit_inode_blocks, direct_from}
use rust_so_kernel.Ext2.Repair.{
  Marks, mark_reachable, bit_set_1based, mark_bit_1based, mark_bit, mark_all,
}
use rust_so_kernel.Ext2.Repair.Closure.{Reachable, IsMarked, IsComplete, mark_reachable-IsComplete}
use rust_so_kernel.Ext2.Repair.Passes.{sweep_loop}
use rust_so_kernel.Ext2.Repair.Sweep.{IsSwept, sweep_loop-IsSwept}
use rust_so_kernel.Ext2.Bitmap.Scan.{FreeBit, find_first_free_bit_lowest}
use rust_so_kernel.Ext2.Volume.Inodes.{read_inode-write_inode}
use rust_so_kernel.Ext2.Volume.Bytewise.{read_bytewise, read_file_range-bytewise}
use rust_so_kernel.Ext2.Volume.Reading.{read_file_range, read_loop, read_piece}
use rust_so_kernel.Ext2.Volume.Mapping.{block_for_index_alloc}
use rust_so_kernel.Ext2.Volume.Allocation.{alloc_block, alloc_block_from, claim_block, write_inode}
use rust_so_kernel.Ext2.Volume.Blocks.{HasAddresses}
use rust_so_kernel.Prelude.Bits.{bit_test, bit_set}
use rust_so_kernel.Ext2.Bitmap.{find_first_free_bit, scan_free, bit_at, set_bit, bit_is_set}
use rust_so_kernel.Ext2.Volume.{
  read_bgd, block_vec, read_block, blocks_in_group, add_at, inode_location, read_inode,
  block_for_index,
}
use rust_so_kernel.Ext2.Volume.Actions.{write_block, adjust_bgd_counts, adjust_sb_counts}
use rust_so_kernel.Ext2.Volume.Claims.{Allocation, alloc_block-Allocation}

abbrev tiny : Superblock
tiny = record {
  block_size = 512;
  inodes_count = 8;
  blocks_count = 12;
  inodes_per_group = 8;
  blocks_per_group = 12;
  first_data_block = 0;
  inode_size = 128;
  bgdt_block = 4;
  num_groups = 1;
  first_ino = 3;
}

abbrev tiny-HasAddresses : HasAddresses mem_disk tiny
tiny-HasAddresses = record { sectors = omega arith; whole = refl; addresses = omega arith }

unfoldable image : List ℕ
image =
    let bare = new_disk 12 in
    let groups =
      patch bare 2048 (to_le 4 5 ++ (to_le 4 6 ++ (to_le 4 7 ++ (to_le 2 2 ++ to_le 2 5)))) in
    let blocks = patch groups 2560 (255 ∷ 3 ∷ []) in
    let inodes = patch blocks 3072 (7 ∷ []) in
    let root =
      patch (patch inodes 3712 (to_le 2 16877 ++ (to_le 2 0 ++ to_le 4 512))) 3752 (to_le 4 8) in
    let file =
      patch (patch root 3840 (to_le 2 33188 ++ (to_le 2 0 ++ to_le 4 5))) 3880 (to_le 4 9) in
    let directory = patch file 4096 (record_bytes 3 512 (97 ∷ []) 1) in
    patch directory 4608 (104 ∷ 101 ∷ 108 ∷ 108 ∷ 111 ∷ [])

-- Block 10 is the first free one.
alloc_block-Allocation_example :
    Allocation mem_disk tiny 0 1 image (alloc_block mem_disk tiny image).1 (some 10)
unfolding image new_disk alloc_block alloc_block_from claim_block read_bgd block_vec read_block
    bgd_location parse_bgd find_first_free_bit scan_free bit_at bit_test set_bit bit_set write_block
    adjust_bgd_counts adjust_sb_counts add_at le_at slice copy_at blocks_in_group mem_read mem_write
    sectors_of
alloc_block-Allocation_example =
    alloc_block-Allocation mem_disk tiny tiny-HasAddresses (omega arith) image refl

-- Inode 2 cleared.
read_inode-write_inode_example :
    read_inode mem_disk tiny 2 (write_inode mem_disk tiny 2 (replicate 128 0) image).1
    ≡ ok (replicate 128 0)
unfolding image new_disk write_inode inode_location block_vec read_block bgd_location le_at slice
    copy_at write_block mem_read mem_write sectors_of
read_inode-write_inode_example =
    read_inode-write_inode mem_disk tiny tiny-HasAddresses 2 (replicate 128 0) image
      (write_inode mem_disk tiny 2 (replicate 128 0) image).1 7 128 4 0 refl refl refl
      (λ e. absurd (omega arith))

abbrev file_inode : List ℕ
file_inode =
    to_le 2 33188 ++ (to_le 2 0 ++ (to_le 4 5 ++ (replicate 32 0 ++ (to_le 4 9 ++ replicate 84 0))))

-- The file's bytes 3 to 8, of which five are in its block and written.
read_file_range-bytewise_example :
    read_file_range mem_disk tiny file_inode 3 6 image
    ≡ read_bytewise mem_disk tiny tiny-HasAddresses file_inode 3 6 image
read_file_range-bytewise_example =
    read_file_range-bytewise mem_disk tiny tiny-HasAddresses file_inode 3 6 image

read_file_range-run : read_file_range mem_disk tiny file_inode 3 3 image ≡ ok (108 ∷ 111 ∷ 0 ∷ [])
unfolding image new_disk read_file_range read_loop read_piece block_for_index i_block block_vec
    read_block slice mem_read sectors_of
read_file_range-run = refl

-- The second block of the file is allocated.
abbrev mapped : Outcome (ℕ × List ℕ) × List ℕ
mapped = block_for_index_alloc mem_disk tiny file_inode 1 image

-- The root directory's block, and a second entry "b" for inode 4.
abbrev root_block : List ℕ
root_block = patch (replicate 512 0) 0 (record_bytes 3 512 (97 ∷ []) 1)

listable : IsListable (98 ∷ []) 4
listable = record {
  named = omega arith;
  short = omega arith;
  no_dots = refl;
  live = omega arith;
  word = omega arith;
}

root_block-IsChain : IsChain root_block 0
unfolding dirent_len
root_block-IsChain =
    chain_record 0 (omega arith) (omega arith) (omega arith) (omega arith)
      (chain_end 512 (omega arith))

place_loop_inserts_example :
    (r : Option (List ℕ)) × (place_loop (98 ∷ []) 4 1 512 root_block 0 ≡ ok r)
    × Placed (98 ∷ []) 4 1 listable root_block 0 r
place_loop_inserts_example =
    place_loop_inserts (98 ∷ []) 4 1 listable root_block (omega arith) root_block-IsChain

find_first_free_bit_lowest_example :
    (r : Option ℕ) × (find_first_free_bit (255 ∷ 3 ∷ []) 12 ≡ ok r) × FreeBit (255 ∷ 3 ∷ []) 0 12 r
find_first_free_bit_lowest_example = find_first_free_bit_lowest (255 ∷ 3 ∷ []) 12 (omega arith)

parse_written_example :
    parse (patch (replicate 32 0) 12 (record_bytes 3 20 (97 ∷ []) 1)) 12
    ≡ some (record { ino = 3; rec_len = 20; file_type = 1; name = 97 ∷ [] })
parse_written_example =
    parse_written (replicate 32 0) 12 3 20 (97 ∷ []) 1 (omega arith) (omega arith) (omega arith)
      (omega arith) (omega arith)

abbrev in_use : ℕ → Bool
in_use j = j == 1

sweep_loop-IsSwept_example :
    (after : List ℕ) × (count : ℕ) × (sweep_loop in_use (7 ∷ []) 0 3 ≡ ok (after, count))
    × IsSwept in_use (7 ∷ []) 0 3 after
sweep_loop-IsSwept_example = sweep_loop-IsSwept in_use (7 ∷ []) 3 0 (omega arith)

abbrev raw_superblock : List ℕ
raw_superblock =
    patch (patch (patch (replicate 1024 0) 0 (to_le 4 8 ++ to_le 4 12)) 32 (to_le 4 12)) 56
      (to_le 2 61267)

abbrev walked : Marks
walked = record { used_inodes = 6 ∷ []; used_blocks = 0 ∷ 3 ∷ [] }

abbrev root_inode : List ℕ
root_inode =
    to_le 2 16877
    ++ (to_le 2 0 ++ (to_le 4 512 ++ (replicate 32 0 ++ (to_le 4 8 ++ replicate 84 0))))

abbrev file_entry : DirEntry
file_entry = record { ino = 3; file_type = 1; name = 97 ∷ [] }

-- The file in the root directory.
file-Reachable : Reachable mem_disk tiny image 3
unfolding image new_disk read_inode inode_location block_vec read_block bgd_location le_at slice
    mem_read sectors_of is_dir i_mode read_dir_entries entries_from block_for_index i_block size
    is_reg list_block list_loop parse
file-Reachable =
    Reachable.child 2 root_inode (file_entry ∷ []) file_entry Reachable.root refl refl
      (Memᴰ.head refl)

mark_reachable-IsComplete_example :
    IsMarked mem_disk tiny image walked 3 × IsComplete mem_disk tiny image walked 3
unfolding image new_disk mark_reachable bit_set_1based bit_is_set bit_test mark_bit_1based mark_bit
    bit_set mark_all read_inode inode_location block_vec read_block bgd_location le_at slice
    mem_read sectors_of is_dir is_reg is_symlink is_fast_symlink has_block_pointers i_mode
    read_dir_entries entries_from block_for_index i_block size list_block list_loop parse
    visit_inode_blocks direct_from
mark_reachable-IsComplete_example =
    mark_reachable-IsComplete mem_disk tiny image 64 (0 ∷ 0 ∷ []) walked refl 3 file-Reachable
