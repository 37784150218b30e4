-- ===== src/Ext2/Records/Placement.antt =====
-- ext2/src/dir.rs: an entry added to a block is listed between the entries that were there.
use rust_so_kernel.Prelude.{
  if_false, ℕ, ◌+◌, ◌-◌, ◌<◌, ◌≤◌, ◌≡◌, ◌⊎◌, sym, ap, ◌∙◌, true, false, List, [], length, get_or,
  leb, ltb, ◌==◌, part, patch, arith, Bool-cases, inl, inr, leb→le, get_or-part, to_le, from_le,
  from_le-to_le_2, length-patch, part-patch_behind, part-patch_before, part-patch_self, ==→eq,
}
use rust_so_kernel.Ext2.{ok, copy_at-ok}
use rust_so_kernel.Ext2.Dirent.{dirent_len, parse, record_bytes}
use rust_so_kernel.Ext2.Records.{
  listed, rec_len_at, ino_at, name_len_at, used_len_at, slack_of, list_block, place_at,
  split_record,
}
use rust_so_kernel.Ext2.Records.Chain.{
  IsChain, chain_record, list_block-record, list_block-same, IsChain-same, SameBehind,
}
use rust_so_kernel.Ext2.Records.Fresh.{
  IsListable, Inserted, write_record-ok, listed-same, listed-dead, used_len-same, SameRecord, fresh,
  fresh-IsChain,
}

dirent_len-le : (n : ℕ) → (8 + n ≤ dirent_len n) × (8 ≤ dirent_len n)
unfolding dirent_len
dirent_len-le n = (omega arith, omega arith)

module _ (name : List ℕ) (ino file_type : ℕ) (listable : IsListable name ino) where
  -- A deleted record is taken over.
  reuse :
      (buf : List ℕ) (off : ℕ)
      → length buf < 65536
      → off + 8 ≤ length buf
      → 8 ≤ rec_len_at buf off
      → off + rec_len_at buf off ≤ length buf
      → IsChain buf off
      → IsChain buf (off + rec_len_at buf off)
      → ino_at buf off ≡ 0
      → dirent_len (length name) ≤ rec_len_at buf off
      → (after : List ℕ) × (place_at name ino file_type buf off ≡ ok after)
        × Inserted name ino file_type listable buf off after
  unfolding place_at
  reuse buf off word here long inside chain rest dead room =
      let n = rec_len_at buf off in
      let room' : 8 + length name ≤ n = omega (arith, dirent_len-le (length name)) in
      let (chain', list') =
        fresh-IsChain name ino file_type listable buf off n inside room (omega arith) rest room' in
      let no_ino : (ino_at buf off == 0) ≡ true = ground arith in
      (
        fresh name ino file_type listable buf off n inside,
        rw (no_ino, place_at) (write_record-ok buf off n ino name file_type inside room'),
        record {
          same_length = length-patch buf off (record_bytes ino n name file_type);
          kept = λ i m h. part-patch_before off i m buf (record_bytes ino n name file_type) h;
          chain = chain';
          before = [];
          behind = list_block buf (off + n);
          listing = list_block-record buf off here long chain ∙ rw (listed-dead buf off dead);
          listing_after = list';
        },
      )

  -- The slack of a live record becomes a record.
  module _ (buf : List ℕ) (off : ℕ) where
    abbrev used : ℕ
    used = used_len_at buf off

    abbrev slack : ℕ
    slack = rec_len_at buf off - used_len_at buf off

    abbrev shrunk : List ℕ
    shrunk = patch buf (off + 4) (to_le 2 used)

    abbrev split : List ℕ
    split = patch shrunk (off + used) (record_bytes ino slack name file_type)

    module _ (word : length buf < 65536) (here : off + 8 ≤ length buf)
        (inside : off + rec_len_at buf off ≤ length buf) (eight : 8 ≤ used)
        (fit : used ≤ rec_len_at buf off) where
      shrunk-same : SameBehind (off + 6) shrunk buf
      shrunk-same = record {
        same_length = length-patch buf (off + 4) (to_le 2 used);
        parts = λ i m k. part-patch_behind (off + 4) i m buf (to_le 2 used) (omega arith);
      }

      -- What stands before the new record and is not the length of the old one.
      split-kept :
          (i m : ℕ)
          → i + m ≤ off + used
          → (i + m ≤ off + 4) ⊎ (off + 6 ≤ i)
          → part i m split ≡ part i m buf
      split-kept i m h c =
          part-patch_before (off + used) i m shrunk (record_bytes ino slack name file_type) h
          ∙ elim c [
            | inl before ↦ part-patch_before (off + 4) i m buf (to_le 2 used) before
            | inr behind ↦ part-patch_behind (off + 4) i m buf (to_le 2 used) (omega arith)
          ]

      split-byte : (i : ℕ) → i + 1 ≤ off + used → off + 6 ≤ i → get_or split i 0 ≡ get_or buf i 0
      split-byte i h k =
          get_or-part i split 0
          ∙ ap (λ p. get_or p 0 0) (split-kept i 1 h (inr k))
          ∙ sym (get_or-part i buf 0)

      split-rec_len : rec_len_at split off ≡ used
      split-rec_len =
          ap from_le (
            part-patch_before (off + used) (off + 4) 2 shrunk
              (record_bytes ino slack name file_type) (omega arith)
            ∙ part-patch_self (off + 4) buf (to_le 2 used) (omega arith))
          ∙ from_le-to_le_2 used (omega arith)

      split-length : length split ≡ length buf
      split-length =
          length-patch shrunk (off + used) (record_bytes ino slack name file_type)
          ∙ length-patch buf (off + 4) (to_le 2 used)

      split-same : SameRecord split buf off
      split-same = record {
        same_length = split-length;
        inode = split-kept off 4 (omega arith) (inl (omega arith));
        name_length = split-byte (off + 6) (omega arith) (omega arith);
        kind = split-byte (off + 7) (omega arith) (omega arith);
        long_a = rw split-rec_len eight;
        long_b = omega arith;
        inside = here;
        used_inside = omega arith;
        named = λ n h. split-kept (off + 8) n (omega arith) (inr (omega arith));
      }

  split_record-ok :
      (buf : List ℕ) (off u s : ℕ)
      → off + 6 ≤ length buf
      → off + u + s ≤ length buf
      → 8 + length name ≤ s
      → split_record name ino file_type buf off u s
        ≡ ok (patch (patch buf (off + 4) (to_le 2 u)) (off + u) (record_bytes ino s name file_type))
  unfolding split_record
  split_record-ok buf off u s h k room =
      let len = length-patch buf (off + 4) (to_le 2 u) in
      rw (copy_at-ok buf (off + 4) (to_le 2 u) (omega arith), split_record)
        (write_record-ok (patch buf (off + 4) (to_le 2 u)) (off + u) s ino name file_type
          (omega arith) room)

  take_slack :
      (buf : List ℕ) (off : ℕ)
      → length buf < 65536
      → off + 8 ≤ length buf
      → 8 ≤ rec_len_at buf off
      → off + rec_len_at buf off ≤ length buf
      → used_len_at buf off ≤ rec_len_at buf off
      → IsChain buf off
      → IsChain buf (off + rec_len_at buf off)
      → (ino_at buf off == 0) ≡ false
      → dirent_len (length name) ≤ rec_len_at buf off - used_len_at buf off
      → (after : List ℕ) × (place_at name ino file_type buf off ≡ ok after)
        × Inserted name ino file_type listable buf off after
  unfolding place_at
  take_slack buf off word here long inside fit chain rest live room =
      let eight : 8 ≤ used buf off = rw live ((dirent_len-le (name_len_at buf off)).1) in
      let room' : 8 + length name ≤ slack buf off = omega (arith, dirent_len-le (length name)) in
      let same = shrunk-same buf off word here inside eight fit in
      let len = same.same_length in
      let end : off + used buf off + slack buf off ≡ off + rec_len_at buf off = omega arith in
      let behind : SameBehind (off + rec_len_at buf off) (shrunk buf off) buf = record {
        same_length = same.same_length;
        parts = λ i m h. same.parts i m (omega arith);
      } in
      let rest' : IsChain (shrunk buf off) (off + used buf off + slack buf off) =
        rw end (IsChain-same (shrunk buf off) buf (off + rec_len_at buf off) behind rest) in
      let (chain', list') =
        fresh-IsChain name ino file_type listable (shrunk buf off) (off + used buf off)
          (slack buf off) (omega arith) room (omega arith) rest' room' in
      let rec' = split-rec_len buf off word here inside eight fit in
      let record' = split-same buf off word here inside eight fit in
      let size = split-length buf off word here inside eight fit in
      let wrap : ltb (rec_len_at buf off) (used_len_at buf off) ≡ false = ground arith in
      let old = listed-same (split buf off) buf off record' in
      let whole : IsChain (split buf off) off =
        chain_record off (omega arith) (omega arith) (omega arith)
          (rw (used_len-same (split buf off) buf off record') (omega arith)) (rw rec' chain') in
      (
        split buf off,
        if_false (ino_at buf off == 0) _ _ live
            ∙ ap (split_record name ino file_type buf off (used buf off)) (if_false _ _ _ wrap)
            ∙ split_record-ok buf off (used buf off) (slack buf off) (omega arith) (omega arith)
                room',
        record {
          same_length = size;
          kept = λ i m h.
              split-kept buf off word here inside eight fit i m (omega arith) (inl (omega arith));
          chain = whole;
          before = listed (parse buf off);
          behind = list_block buf (off + rec_len_at buf off);
          listing = list_block-record buf off here long chain;
          listing_after =
              list_block-record (split buf off) off (omega arith) (omega arith) whole
              ∙ rw (
                old,
                rec',
                list',
                end,
                list_block-same (shrunk buf off) buf (off + rec_len_at buf off) behind,
              );
        },
      )

  pub place_here :
      (buf : List ℕ) (off : ℕ)
      → length buf < 65536
      → off + 8 ≤ length buf
      → 8 ≤ rec_len_at buf off
      → off + rec_len_at buf off ≤ length buf
      → used_len_at buf off ≤ rec_len_at buf off
      → IsChain buf off
      → IsChain buf (off + rec_len_at buf off)
      → leb (dirent_len (length name)) (slack_of (rec_len_at buf off) (used_len_at buf off)) ≡ true
      → (after : List ℕ) × (place_at name ino file_type buf off ≡ ok after)
        × Inserted name ino file_type listable buf off after
  place_here buf off word here long inside fit chain rest roomy =
      let le = leb→le _ _ roomy in
      let wrap : ltb (rec_len_at buf off) (used_len_at buf off) ≡ false = ground arith in
      let slack' : slack_of (rec_len_at buf off) (used_len_at buf off)
          ≡ rec_len_at buf off - used_len_at buf off =
        if_false _ _ _ wrap in
      elim (Bool-cases (ino_at buf off == 0)) [
        | inl dead ↦ reuse buf off word here long inside chain rest (==→eq _ _ dead) (omega arith)
        | inr live ↦ take_slack buf off word here long inside fit chain rest live (omega arith)
      ]
