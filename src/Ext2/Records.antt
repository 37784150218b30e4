-- ===== src/Ext2/Records.antt =====
-- ext2/src/dir.rs: the scans of one directory block, from record to record. Each record takes eight
-- bytes at least, so that the length of the block is enough fuel.
pub mod Chain
pub mod Fresh
pub mod Placement
pub mod Insertion
use rust_so_kernel.Prelude.{
  ℕ, zero, suc, ◌+◌, ◌-◌, Bool, true, false, not, ◌&&◌, ◌||◌, Option, none, some, List, [], ◌∷◌,
  ◌++◌, length, get_or, leb, ltb, ◌==◌, if◌then◌else◌, part, patch, from_le, to_le,
}
use rust_so_kernel.Ext2.{Outcome, ok, err, io, slice, copy_at, ◌>>=◌}
use rust_so_kernel.Ext2.Dirent.{dirent_len, write_dirent, ParsedDirent, parse}

pub record DirEntry : Type 0 where
  pub ino : ℕ
  pub file_type : ℕ
  pub name : List ℕ

abbrev pub bytes_eq : List ℕ → List ℕ → Bool
bytes_eq [] [] = true
bytes_eq [] (y ∷ ys) = false
bytes_eq (x ∷ xs) [] = false
bytes_eq (x ∷ xs) (y ∷ ys) = (x == y) && bytes_eq xs ys

abbrev pub dot : List ℕ
dot = 46 ∷ []

abbrev pub dot_dot : List ℕ
dot_dot = 46 ∷ 46 ∷ []

-- The entry that a parsed record adds to a listing: none for a deleted one, "." and "..".
abbrev pub listed : Option ParsedDirent → List DirEntry
listed none = []
listed (some e) =
    if e.ino == 0 || length e.name == 0
    then []
    else if bytes_eq e.name dot || bytes_eq e.name dot_dot
    then []
    else record { ino = e.ino; file_type = e.file_type; name = e.name } ∷ []

abbrev pub rec_len_at : List ℕ → ℕ → ℕ
rec_len_at buf off = from_le (part (off + 4) 2 buf)

abbrev pub ino_at : List ℕ → ℕ → ℕ
ino_at buf off = from_le (part off 4 buf)

abbrev pub name_len_at : List ℕ → ℕ → ℕ
name_len_at buf off = get_or buf (off + 6) 0

unfoldable pub list_loop : ℕ → List ℕ → ℕ → List DirEntry
list_loop zero buf off = []
list_loop (suc fuel) buf off =
    let rest = list_loop fuel buf (off + rec_len_at buf off) in
    if leb (off + 8) (length buf)
    then (if ltb (rec_len_at buf off) 8 then [] else listed (parse buf off) ++ rest)
    else []

unfoldable pub list_block : List ℕ → ℕ → List DirEntry
list_block buf off = list_loop (length buf) buf off

-- `write_dirent(&mut buf[off..off + n], ...)`, with `n` as the record's length.
unfoldable pub write_record : List ℕ → ℕ → ℕ → ℕ → List ℕ → ℕ → Outcome (List ℕ)
write_record buf off n ino name file_type = do
  window ← slice buf off n
  record_bytes ← write_dirent window ino n name file_type
  ok (patch buf off record_bytes)

-- `rec_len - used_len` on words of 64 bits.
abbrev pub slack_of : ℕ → ℕ → ℕ
slack_of rec_len used_len =
    if ltb rec_len used_len then rec_len + 18446744073709551616 - used_len else rec_len - used_len

abbrev pub used_len_at : List ℕ → ℕ → ℕ
used_len_at buf off = if ino_at buf off == 0 then 0 else dirent_len (name_len_at buf off)

module _ (name : List ℕ) (ino file_type : ℕ) where
  -- The record at `off` cut to its own length, and the new one in the tail that this frees.
  unfoldable pub split_record : List ℕ → ℕ → ℕ → ℕ → Outcome (List ℕ)
  split_record buf off used_len slack = do
    shrunk ← copy_at buf (off + 4) (to_le 2 used_len)
    write_record shrunk (off + used_len) slack ino name file_type

  -- The new entry in the slack of the record at `off`, or in its place if it is deleted.
  unfoldable pub place_at : List ℕ → ℕ → Outcome (List ℕ)
  place_at buf off =
      let used_len = used_len_at buf off in
      let slack = slack_of (rec_len_at buf off) used_len in
      if ino_at buf off == 0
      then write_record buf off (rec_len_at buf off) ino name file_type
      else split_record buf off used_len slack

  -- The block with the entry added by add_dir_entry, or none if no record has room.
  unfoldable pub place_loop : ℕ → List ℕ → ℕ → Outcome (Option (List ℕ))
  place_loop zero buf off = ok none
  place_loop (suc fuel) buf off =
      let rest = place_loop fuel buf (off + rec_len_at buf off) in
      let slack = slack_of (rec_len_at buf off) (used_len_at buf off) in
      let placed = place_at buf off >>= λ after. ok (some after) in
      if leb (off + 8) (length buf)
      then (if ltb (rec_len_at buf off) 8
          then err io
          else if leb (dirent_len (length name)) slack
          then placed
          else rest)
      else ok none

-- Whether the record at `off` is the live one called `name`.
unfoldable pub is_named : List ℕ → List ℕ → ℕ → Bool
is_named name buf off =
    not (ino_at buf off == 0)
    && (name_len_at buf off == length name)
    && leb (off + 8 + name_len_at buf off) (length buf)
    && bytes_eq (part (off + 8) (name_len_at buf off) buf) name

-- The record at `off` joined to the one before it, or marked deleted.
unfoldable pub erase_at : List ℕ → Option ℕ → ℕ → Outcome (List ℕ)
erase_at buf none off = copy_at buf off (to_le 4 0)
erase_at buf (some p) off = copy_at buf (p + 4) (to_le 2 (rec_len_at buf p + rec_len_at buf off))

-- The inode and type of the entry called `name`, with the block without it.
unfoldable pub remove_loop : List ℕ → ℕ → List ℕ → Option ℕ → ℕ → Outcome (Option (ℕ × ℕ × List ℕ))
remove_loop name zero buf prev off = ok none
remove_loop name (suc fuel) buf prev off =
    let rest = remove_loop name fuel buf (some off) (off + rec_len_at buf off) in
    let removed = erase_at buf prev off >>= λ after.
    ok (some (ino_at buf off, get_or buf (off + 7) 0, after)) in
    if leb (off + 8) (length buf)
    then (if ltb (rec_len_at buf off) 8
        then ok none
        else if is_named name buf off
        then removed
        else rest)
    else ok none

-- The first block with the entry ".." rewritten.
unfoldable pub dotdot_loop : ℕ → ℕ → List ℕ → ℕ → Outcome (Option (List ℕ))
dotdot_loop new_parent_ino zero buf off = ok none
dotdot_loop new_parent_ino (suc fuel) buf off =
    let rest = dotdot_loop new_parent_ino fuel buf (off + rec_len_at buf off) in
    let rewritten = copy_at buf off (to_le 4 new_parent_ino) >>= λ after. ok (some after) in
    let here =
      (name_len_at buf off == 2)
      && leb (off + 8 + 2) (length buf)
      && bytes_eq (part (off + 8) 2 buf) dot_dot in
    if leb (off + 8) (length buf)
    then (if ltb (rec_len_at buf off) 8 then ok none else if here then rewritten else rest)
    else ok none
