-- ===== src/Ext2/Records/Fresh.antt =====
-- ext2/src/dir.rs: the record of a new entry, and the records that it leaves as they were.
use rust_so_kernel.Prelude.{
  ℕ, ◌+◌, ◌<◌, ◌≤◌, ◌≡◌, sym, ap, ◌∙◌, false, ◌||◌, List, [], ◌∷◌, ◌++◌, length, get_or, ltb, ◌==◌,
  part, patch, arith, Bool-cases, inl, inr, some, none, Option, from_le, length-patch, patch-part,
  length-part, part-patch_behind, ==→eq,
}
use rust_so_kernel.Ext2.{ok, slice-ok, copy_at-ok}
use rust_so_kernel.Ext2.Dirent.{dirent_len, parse, record_bytes, write_dirent}
use rust_so_kernel.Ext2.Dirent.RoundTrip.{
  parse_written, ino_written, rec_len_written, name_len_written, length-record_bytes, not_ltb,
}
use rust_so_kernel.Ext2.Records.{
  DirEntry, listed, dot, dot_dot, bytes_eq, rec_len_at, ino_at, name_len_at, used_len_at, slack_of,
  list_block, write_record,
}
use rust_so_kernel.Ext2.Records.Chain.{
  IsChain, chain_record, list_block-record, list_block-same, IsChain-same, SameBehind,
}

-- A name and an inode that a directory lists: no "." or "..", at most 255 bytes.
pub record IsListable (name : List ℕ) (ino : ℕ) : Type 0 where
  pub named : 0 < length name
  pub short : length name < 256
  pub no_dots : (bytes_eq name dot || bytes_eq name dot_dot) ≡ false
  pub live : 0 < ino
  pub word : ino < 4294967296

pub write_record-ok :
    (buf : List ℕ) (off n ino : ℕ) (name : List ℕ) (file_type : ℕ)
    → off + n ≤ length buf
    → 8 + length name ≤ n
    → write_record buf off n ino name file_type
      ≡ ok (patch buf off (record_bytes ino n name file_type))
unfolding write_record write_dirent
write_record-ok buf off n ino name file_type h k =
    let bytes = record_bytes ino n name file_type in
    let size : length bytes ≡ 8 + length name = length-record_bytes ino n name file_type in
    let window : length (part off n buf) ≡ n = length-part off n buf h in
    rw (
      slice-ok buf off n h,
      copy_at-ok (part off n buf) 0 bytes (omega arith),
      patch-part off n buf bytes (omega arith),
      write_record,
      write_dirent,
    )

pub listed-dead : (buf : List ℕ) (off : ℕ) → ino_at buf off ≡ 0 → listed (parse buf off) ≡ []
unfolding parse
listed-dead buf off h = elim (Bool-cases (ltb (length buf) (off + 8))) [
  | inl short ↦ rw (short, parse)
  | inr here ↦ elim (Bool-cases (ltb (rec_len_at buf off) 8)) [
    | inl corrupt ↦ rw (here, corrupt, parse)
    | inr long ↦ elim (Bool-cases (ltb (length buf) (off + 8 + name_len_at buf off))) [
      | inl past ↦ rw (here, long, past, parse)
      | inr inside ↦ rw (here, long, inside, h, parse)
    ]
  ]
]

parse-some :
    (buf : List ℕ) (off : ℕ)
    → off + 8 ≤ length buf
    → 8 ≤ rec_len_at buf off
    → off + 8 + name_len_at buf off ≤ length buf
    → parse buf off
      ≡ some (record {
        ino = ino_at buf off;
        rec_len = rec_len_at buf off;
        file_type = get_or buf (off + 7) 0;
        name = part (off + 8) (name_len_at buf off) buf;
      })
unfolding parse
parse-some buf off here long inside = rw (
  not_ltb (length buf) (off + 8) here,
  not_ltb (rec_len_at buf off) 8 long,
  not_ltb (length buf) (off + 8 + name_len_at buf off) inside,
  parse,
)

-- Two blocks whose records at `off` differ in their lengths only.
pub record SameRecord (a b : List ℕ) (off : ℕ) : Type 0 where
  pub same_length : length a ≡ length b
  pub inode : part off 4 a ≡ part off 4 b
  pub name_length : name_len_at a off ≡ name_len_at b off
  pub kind : get_or a (off + 7) 0 ≡ get_or b (off + 7) 0
  pub long_a : 8 ≤ rec_len_at a off
  pub long_b : 8 ≤ rec_len_at b off
  pub inside : off + 8 ≤ length b
  pub used_inside : off + used_len_at b off ≤ length b
  pub named : (n : ℕ) → 8 + n ≤ used_len_at b off → part (off + 8) n a ≡ part (off + 8) n b

pub used_len-live :
    (buf : List ℕ) (off : ℕ)
    → (ino_at buf off == 0) ≡ false
    → 8 + name_len_at buf off ≤ used_len_at buf off
unfolding dirent_len
used_len-live buf off h = rw (h, dirent_len) (omega arith)

pub used_len-same :
    (a b : List ℕ) (off : ℕ) → SameRecord a b off → used_len_at a off ≡ used_len_at b off
used_len-same a b off s = rw (s.inode, s.name_length)

pub listed-same :
    (a b : List ℕ) (off : ℕ) → SameRecord a b off → listed (parse a off) ≡ listed (parse b off)
listed-same a b off s =
    let size = s.same_length in
    let inside = s.inside in
    elim (Bool-cases (ino_at b off == 0)) [
      | inl dead ↦
          let no_ino : ino_at b off ≡ 0 = ==→eq _ _ dead in
          listed-dead a off (ap from_le s.inode ∙ no_ino) ∙ sym (listed-dead b off no_ino)
      | inr live ↦
          let used = used_len-live b off live in
          let used_inside = s.used_inside in
          let len = s.name_length in
          rw (
            parse-some a off (omega arith) s.long_a (omega arith),
            parse-some b off inside s.long_b (omega arith),
            s.inode,
            s.kind,
            len,
            s.named (name_len_at b off) used,
          )
    ]

module _ (name : List ℕ) (ino file_type : ℕ) (listable : IsListable name ino) where
  abbrev pub entry : DirEntry
  entry = record { ino = ino; file_type = file_type; name = name }

  listed-entry :
      (rec_len : ℕ)
      → listed (some (record { ino = ino; rec_len = rec_len; file_type = file_type; name = name }))
        ≡ entry ∷ []
  listed-entry rec_len =
      let live = listable.live in
      let named = listable.named in
      let no_ino : (ino == 0) ≡ false = ground arith in
      let no_len : (length name == 0) ≡ false = ground arith in
      rw (no_ino, no_len, listable.no_dots)

  -- No record from `off` on has room.
  pub data NoRoom (buf : List ℕ) : ℕ → Type 0 where
    no_more : (off : ℕ) → length buf < off + 8 → NoRoom buf off
    no_slack :
        (off : ℕ)
        → slack_of (rec_len_at buf off) (used_len_at buf off) < dirent_len (length name)
        → NoRoom buf (off + rec_len_at buf off)
        → NoRoom buf off

  -- The block after the entry is placed at or behind `off`.
  pub record Inserted (buf : List ℕ) (off : ℕ) (after : List ℕ) : Type 0 where
    pub same_length : length after ≡ length buf
    pub kept : (i n : ℕ) → i + n ≤ off → part i n after ≡ part i n buf
    pub chain : IsChain after off
    pub before : List DirEntry
    pub behind : List DirEntry
    pub listing : list_block buf off ≡ before ++ behind
    pub listing_after : list_block after off ≡ before ++ (entry ∷ behind)

  pub data Placed (buf : List ℕ) (off : ℕ) : Option (List ℕ) → Type 0 where
    no_room : NoRoom buf off → Placed buf off none
    placed : (after : List ℕ) → Inserted buf off after → Placed buf off (some after)

  -- A new record of `n` bytes before a chain.
  module _ (buf : List ℕ) (off n : ℕ) (fits : off + n ≤ length buf) where
    abbrev pub fresh : List ℕ
    fresh = patch buf off (record_bytes ino n name file_type)

    pub fresh-same : 8 + length name ≤ n → (more : ℕ) → off + n ≤ more → SameBehind more fresh buf
    fresh-same room more h =
        let size = length-record_bytes ino n name file_type in
        record {
          same_length = length-patch buf off (record_bytes ino n name file_type);
          parts = λ i m k.
              part-patch_behind off i m buf (record_bytes ino n name file_type) (omega arith);
        }

    fresh-used : 8 + length name ≤ n → used_len_at fresh off ≡ dirent_len (length name)
    fresh-used room =
        let live = listable.live in
        let no_ino : (ino == 0) ≡ false = ground arith in
        let fits' : off + (8 + length name) ≤ length buf = omega arith in
        rw (
          ino_written buf off ino n name file_type fits' listable.word,
          no_ino,
          name_len_written buf off ino n name file_type fits' listable.short,
        )

    module _ (room : dirent_len (length name) ≤ n) (word : n < 65536)
        (rest : IsChain buf (off + n)) where
      pub fresh-IsChain :
          8 + length name ≤ n
          → IsChain fresh off × (list_block fresh off ≡ entry ∷ list_block buf (off + n))
      fresh-IsChain room' =
          let fits' : off + (8 + length name) ≤ length buf = omega arith in
          let size : rec_len_at fresh off ≡ n =
            rec_len_written buf off ino n name file_type fits' word in
          let same = fresh-same room' (off + n) (omega arith) in
          let len : length fresh ≡ length buf = same.same_length in
          let used = fresh-used room' in
          let tail : IsChain fresh (off + n) = IsChain-same fresh buf (off + n) same rest in
          let chain : IsChain fresh off =
            chain_record off (omega arith) (omega arith) (omega arith) (rw (used, size) room)
              (rw size tail) in
          let list : list_block fresh off ≡ entry ∷ list_block buf (off + n) =
            list_block-record fresh off (omega arith) (omega arith) chain
            ∙ rw (
              parse_written buf off ino n name file_type fits' listable.word (omega arith) word
                  listable.short,
              listed-entry n,
              size,
              list_block-same fresh buf (off + n) same,
            ) in
          (chain, list)
