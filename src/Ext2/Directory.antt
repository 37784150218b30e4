-- ===== src/Ext2/Directory.antt =====
-- ext2/src/dir.rs: the operations on a directory's blocks, and the target of a symbolic link. A name
-- is its bytes; the replacement of malformed UTF-8 in a name that is read is left out.
use rust_so_kernel.Prelude.{
  ℕ, zero, suc, ◌+◌, ◌*◌, Option, none, some, List, length, ltb, ◌==◌, if◌then◌else◌, replicate,
}
use rust_so_kernel.Ext2.{Outcome, err, halted, io, not_found, copy_at, slice}
use rust_so_kernel.Ext2.Device.{BlockDevice}
use rust_so_kernel.Ext2.Superblock.{Superblock}
use rust_so_kernel.Ext2.Dirent.{write_dirent}
use rust_so_kernel.Ext2.Inode.{RawInode, size, set_size, is_fast_symlink}
use rust_so_kernel.Ext2.Volume.{block_vec, block_for_index}
use rust_so_kernel.Ext2.Volume.Actions.{Action, ◌>>=◌, ◌>>◌, look, done, result, write_block}
use rust_so_kernel.Ext2.Volume.Allocation.{write_inode}
use rust_so_kernel.Ext2.Volume.Mapping.{block_for_index_alloc}
use rust_so_kernel.Ext2.Volume.Reading.{read_file_range}
use rust_so_kernel.Ext2.Volume.Files.{write_file_range}
use rust_so_kernel.Ext2.Listing.{num_blocks}
use rust_so_kernel.Ext2.Records.{place_loop, remove_loop, dotdot_loop}

module _ (device : BlockDevice) (sb : Superblock) where
  -- Guards the division.
  abbrev pub with_blocks : {A : Type 0} → Action device.Disk A → Action device.Disk A
  with_blocks run = if sb.block_size == 0 then result halted else run

  -- Whether the entry found room in the blocks from `index`.
  unfoldable pub place_from :
      List ℕ → ℕ → ℕ → RawInode → ℕ → ℕ → Action device.Disk (Option (Unit {0}))
  place_from name ino file_type raw zero index = done none
  place_from name ino file_type raw (suc n) index =
      let rest = place_from name ino file_type raw n (suc index) in
      look (block_for_index device sb raw index) >>= λ found. elim found [
        | none ↦ rest
        | some block_num ↦ look (block_vec device sb block_num) >>= λ buf.
            result (place_loop name ino file_type (length buf) buf 0) >>= λ placed. elim placed [
              | none ↦ rest
              | some after ↦ write_block device sb block_num after >> done (some tt)
            ]
      ]

  -- A new block for the entry, behind the others; with the inode after it.
  unfoldable pub grow_directory : ℕ → RawInode → List ℕ → ℕ → ℕ → Action device.Disk RawInode
  grow_directory dir_ino raw name ino file_type = do
    let new_block_index = num_blocks device sb raw
    (new_block, raw_1) ← block_for_index_alloc device sb raw new_block_index
    buf ← result (write_dirent (replicate sb.block_size 0) ino sb.block_size name file_type)
    write_block device sb new_block buf
    let raw_2 = set_size ((new_block_index + 1) * sb.block_size) raw_1
    write_inode device sb dir_ino raw_2
    done raw_2

  unfoldable pub add_dir_entry : ℕ → RawInode → List ℕ → ℕ → ℕ → Action device.Disk RawInode
  add_dir_entry dir_ino raw name ino file_type = with_blocks (do
    placed ← place_from name ino file_type raw (num_blocks device sb raw) 0
    elim placed [ none ↦ grow_directory dir_ino raw name ino file_type | some _ ↦ done raw ])

  unfoldable pub remove_from : List ℕ → RawInode → ℕ → ℕ → Action device.Disk (ℕ × ℕ)
  remove_from name raw zero index = result (err not_found)
  remove_from name raw (suc n) index =
      let rest = remove_from name raw n (suc index) in
      look (block_for_index device sb raw index) >>= λ found. elim found [
        | none ↦ rest
        | some block_num ↦ look (block_vec device sb block_num) >>= λ buf.
            result (remove_loop name (length buf) buf none 0) >>= λ removed. elim removed [
              | none ↦ rest
              | some (ino, file_type, after) ↦
                  write_block device sb block_num after >> done (ino, file_type)
            ]
      ]

  unfoldable pub remove_dir_entry : RawInode → List ℕ → Action device.Disk (ℕ × ℕ)
  remove_dir_entry raw name = with_blocks (remove_from name raw (num_blocks device sb raw) 0)

  unfoldable pub set_dotdot : RawInode → ℕ → Action device.Disk (Unit {0})
  set_dotdot raw new_parent_ino = look (block_for_index device sb raw 0) >>= λ found. elim found [
    | none ↦ result (err io)
    | some block_num ↦ look (block_vec device sb block_num) >>= λ buf.
        result (dotdot_loop new_parent_ino (length buf) buf 0) >>= λ rewritten. elim rewritten [
          | none ↦ result (err io)
          | some after ↦ write_block device sb block_num after
        ]
  ]

  unfoldable pub read_symlink_target : RawInode → device.Disk → Outcome (List ℕ)
  read_symlink_target raw disk =
      if is_fast_symlink raw
      then slice raw 40 (size raw)
      else read_file_range device sb raw 0 (size raw) disk

  -- With the inode as it is written back.
  unfoldable pub write_symlink_target : RawInode → ℕ → List ℕ → Action device.Disk RawInode
  write_symlink_target raw ino target =
      let fast : Action device.Disk RawInode = do
        inline ← result (copy_at raw 40 target)
        let raw_1 = set_size (length target) inline
        write_inode device sb ino raw_1
        done raw_1
      in let slow : Action device.Disk RawInode = do
        write_inode device sb ino raw
        (_, raw_1) ← write_file_range device sb ino raw 0 target
        done raw_1
        in if ltb (length target) 60 then fast else slow
