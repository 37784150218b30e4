-- ===== src/Ext2/Inode.antt =====
-- ext2/src/inode.rs: the inode record, its bytes. The fields are below byte 112: a record has 128
pub mod RoundTrip
-- bytes at least.
use rust_so_kernel.Prelude.{
  ℕ, ◌+◌, ◌*◌, ◌/◌, ◌%◌, List, [], ◌∷◌, Bool, not, ◌&&◌, ◌||◌, ltb, ◌==◌, if◌then◌else◌, part,
  patch, from_le, to_le, replicate,
}

-- `parse` is the record itself.
abbrev pub RawInode : Type 0
RawInode = List ℕ

unfoldable pub zeroed : ℕ → RawInode
zeroed size = replicate size 0

unfoldable pub i_mode : RawInode → ℕ
i_mode raw = from_le (part 0 2 raw)

unfoldable pub set_i_mode : ℕ → RawInode → RawInode
set_i_mode v raw = patch raw 0 (to_le 2 v)

unfoldable pub links_count : RawInode → ℕ
links_count raw = from_le (part 26 2 raw)

unfoldable pub set_links_count : ℕ → RawInode → RawInode
set_links_count v raw = patch raw 26 (to_le 2 v)

unfoldable pub set_blocks_512 : ℕ → RawInode → RawInode
set_blocks_512 v raw = patch raw 28 (to_le 4 v)

unfoldable pub set_dtime : ℕ → RawInode → RawInode
set_dtime unix_secs raw = patch raw 20 (to_le 4 unix_secs)

-- The type is the upper four of the sixteen bits of the mode.
unfoldable pub is_dir : RawInode → Bool
is_dir raw = i_mode raw / 4096 * 4096 == 16384

unfoldable pub is_reg : RawInode → Bool
is_reg raw = i_mode raw / 4096 * 4096 == 32768

unfoldable pub is_symlink : RawInode → Bool
is_symlink raw = i_mode raw / 4096 * 4096 == 40960

unfoldable pub size : RawInode → ℕ
size raw =
    let size_lo = from_le (part 4 4 raw) in
    let size_hi = from_le (part 108 4 raw) in
    if is_reg raw then size_hi * 4294967296 + size_lo else size_lo

unfoldable pub set_size : ℕ → RawInode → RawInode
set_size v raw =
    let low = patch raw 4 (to_le 4 (v % 4294967296)) in
    if is_reg low then patch low 108 (to_le 4 (v / 4294967296)) else low

unfoldable pub i_block : ℕ → RawInode → ℕ
i_block i raw = from_le (part (40 + i * 4) 4 raw)

unfoldable pub set_i_block : ℕ → ℕ → RawInode → RawInode
set_i_block i v raw = patch raw (40 + i * 4) (to_le 4 v)

unfoldable pub is_fast_symlink : RawInode → Bool
is_fast_symlink raw = is_symlink raw && ltb (size raw) 60

unfoldable pub has_block_pointers : RawInode → Bool
has_block_pointers raw = (is_dir raw || is_reg raw || is_symlink raw) && not (is_fast_symlink raw)
