-- ===== src/Ext2/Dirent.antt =====
-- ext2/src/dirent.rs: the record of a directory entry. A name is its bytes.
pub mod RoundTrip
use rust_so_kernel.Prelude.{
  ℕ, ◌+◌, ◌*◌, ◌/◌, ◌%◌, Option, none, some, List, [], ◌∷◌, ◌++◌, length, get_or, ltb,
  if◌then◌else◌, part, from_le, to_le,
}
use rust_so_kernel.Ext2.{Outcome, copy_at}

-- `(8 + name_len + 3) & !3`
unfoldable pub dirent_len : ℕ → ℕ
dirent_len name_len = (8 + name_len + 3) / 4 * 4

-- The bytes that `write_dirent` writes, in the order of its five writes.
abbrev pub record_bytes : ℕ → ℕ → List ℕ → ℕ → List ℕ
record_bytes ino rec_len name file_type =
    to_le 4 ino ++ (to_le 2 rec_len ++ (length name % 256 ∷ file_type ∷ name))

unfoldable pub write_dirent : List ℕ → ℕ → ℕ → List ℕ → ℕ → Outcome (List ℕ)
write_dirent buf ino rec_len name file_type =
    copy_at buf 0 (record_bytes ino rec_len name file_type)

pub record ParsedDirent : Type 0 where
  pub ino : ℕ
  pub rec_len : ℕ
  pub file_type : ℕ
  pub name : List ℕ

unfoldable pub parse : List ℕ → ℕ → Option ParsedDirent
parse buf off =
    let rec_len = from_le (part (off + 4) 2 buf) in
    let name_len = get_or buf (off + 6) 0 in
    if ltb (length buf) (off + 8)
    then none
    else if ltb rec_len 8
    then none
    else if ltb (length buf) (off + 8 + name_len)
    then none
    else some (record {
      ino = from_le (part off 4 buf);
      rec_len = rec_len;
      file_type = get_or buf (off + 7) 0;
      name = part (off + 8) name_len buf;
    })
