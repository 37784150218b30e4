-- ===== src/Ext2/Dirent/RoundTrip.antt =====
-- ext2/src/dirent.rs: a record that is written is read back.
use rust_so_kernel.Prelude.{
  ℕ, ◌+◌, ◌<◌, ◌≤◌, ◌≡◌, ◌∙◌, false, ap, some, List, length, get_or, ltb, part, patch, from_le,
  to_le, part-patch_in, length-patch, get_or-part, take-all, from_le-to_le_2, from_le-to_le_4,
  arith,
}
use rust_so_kernel.Ext2.Dirent.{record_bytes, parse}

pub length-record_bytes :
    (ino rec_len : ℕ) (name : List ℕ) (file_type : ℕ)
    → length (record_bytes ino rec_len name file_type) ≡ 8 + length name
length-record_bytes ino rec_len name file_type = omega arith

pub not_ltb : (a b : ℕ) → b ≤ a → ltb a b ≡ false
not_ltb a b h = ground arith

module _ (buf : List ℕ) (off ino rec_len : ℕ) (name : List ℕ) (file_type : ℕ) where
  abbrev written : List ℕ
  written = patch buf off (record_bytes ino rec_len name file_type)

  module _ (fits : off + (8 + length name) ≤ length buf) where
    field_of :
        (i n : ℕ)
        → i + n ≤ 8 + length name
        → part (off + i) n written ≡ part i n (record_bytes ino rec_len name file_type)
    field_of i n h =
        part-patch_in off i n buf (record_bytes ino rec_len name file_type) (omega arith)
          (omega arith)

    byte_at :
        (i : ℕ)
        → i + 1 ≤ 8 + length name
        → get_or written (off + i) 0
          ≡ get_or (part i 1 (record_bytes ino rec_len name file_type)) 0 0
    byte_at i h = get_or-part (off + i) written 0 ∙ ap (λ p. get_or p 0 0) (field_of i 1 h)

    pub ino_written : ino < 4294967296 → from_le (part off 4 written) ≡ ino
    ino_written h =
        ap (λ o. from_le (part o 4 written)) (omega arith)
        ∙ ap from_le (field_of 0 4 (omega arith))
        ∙ from_le-to_le_4 ino h

    pub rec_len_written : rec_len < 65536 → from_le (part (off + 4) 2 written) ≡ rec_len
    rec_len_written h = ap from_le (field_of 4 2 (omega arith)) ∙ from_le-to_le_2 rec_len h

    pub name_len_written : length name < 256 → get_or written (off + 6) 0 ≡ length name
    name_len_written h = byte_at 6 (omega arith) ∙ omega arith

    -- The record written anywhere in a block is the one parsed there.
    pub parse_written :
        ino < 4294967296
        → 8 ≤ rec_len
        → rec_len < 65536
        → length name < 256
        → parse written off
          ≡ some (record { ino = ino; rec_len = rec_len; file_type = file_type; name = name })
    unfolding parse
    parse_written h low high short =
        let start : part off 4 written ≡ to_le 4 ino =
          ap (λ o. part o 4 written) (omega arith) ∙ field_of 0 4 (omega arith) in
        let len : get_or written (off + 6) 0 ≡ length name =
          byte_at 6 (omega arith) ∙ omega arith in
        let whole : part (off + 8) (length name) written ≡ name =
          field_of 8 (length name) (omega arith) ∙ take-all (length name) name (omega arith) in
        let size : length written ≡ length buf =
          length-patch buf off (record_bytes ino rec_len name file_type) in
        rw (
          field_of 4 2 (omega arith),
          from_le-to_le_2 rec_len high,
          len,
          size,
          not_ltb (length buf) (off + 8) (omega arith),
          not_ltb rec_len 8 low,
          not_ltb (length buf) (off + 8 + length name) (omega arith),
          start,
          from_le-to_le_4 ino h,
          byte_at 7 (omega arith),
          whole,
          parse,
        )
