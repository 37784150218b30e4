-- ===== src/Ext2/Records/Insertion.antt =====
-- ext2/src/dir.rs: the scan of a block for room keeps what it passes, and finds room where there is.
use rust_so_kernel.Prelude.{
  append_assoc, ℕ, zero, suc, ◌+◌, ◌<◌, ◌≤◌, ◌≡◌, refl, sym, ap, ◌∙◌, true, false, List, ◌∷◌, ◌++◌,
  length, get_or, leb, ltb, arith, Bool-cases, inl, inr, some, none, Option, get_or-part, from_le,
}
use rust_so_kernel.Ext2.{ok}
use rust_so_kernel.Ext2.Dirent.{dirent_len, parse}
use rust_so_kernel.Ext2.Records.{listed, rec_len_at, used_len_at, slack_of, place_loop}
use rust_so_kernel.Ext2.Records.Chain.{IsChain, chain_end, chain_record, list_block-record}
use rust_so_kernel.Ext2.Records.Placement.{place_here}
use rust_so_kernel.Ext2.Records.Fresh.{
  IsListable, Inserted, Placed, no_room, placed, no_more, no_slack, listed-same, used_len-same,
  SameRecord, entry,
}

module _ (name : List ℕ) (ino file_type : ℕ) (listable : IsListable name ino) where
  -- A record before the place stays as it was.
  module _ (buf : List ℕ) (off : ℕ) (after : List ℕ)
      (i : Inserted name ino file_type listable buf (off + rec_len_at buf off) after)
      (here : off + 8 ≤ length buf) (long : 8 ≤ rec_len_at buf off)
      (inside : off + rec_len_at buf off ≤ length buf)
      (fit : used_len_at buf off ≤ rec_len_at buf off) (chain : IsChain buf off) where
    step-byte : (j : ℕ) → j + 1 ≤ off + rec_len_at buf off → get_or after j 0 ≡ get_or buf j 0
    step-byte j h =
        get_or-part j after 0 ∙ ap (λ p. get_or p 0 0) (i.kept j 1 h) ∙ sym (get_or-part j buf 0)

    step-rec_len : rec_len_at after off ≡ rec_len_at buf off
    step-rec_len = ap from_le (i.kept (off + 4) 2 (omega arith))

    step-record : SameRecord after buf off
    step-record = record {
      same_length = i.same_length;
      inode = i.kept off 4 (omega arith);
      name_length = step-byte (off + 6) (omega arith);
      kind = step-byte (off + 7) (omega arith);
      long_a = rw step-rec_len long;
      long_b = long;
      inside = here;
      used_inside = omega arith;
      named = λ n h. i.kept (off + 8) n (omega arith);
    }

    step_over : Inserted name ino file_type listable buf off after
    step_over =
        let old = listed-same after buf off step-record in
        let size = i.same_length in
        let rec' = step-rec_len in
        let whole : IsChain after off =
          chain_record off (omega arith) (omega arith) (omega arith)
            (rw (used_len-same after buf off step-record, rec') fit) (rw rec' i.chain) in
        record {
          same_length = i.same_length;
          kept = λ j m h. i.kept j m (omega arith);
          chain = whole;
          before = listed (parse buf off) ++ i.before;
          behind = i.behind;
          listing =
              list_block-record buf off here long chain
              ∙ ap (◌++◌ (listed (parse buf off))) i.listing
              ∙ sym (append_assoc (listed (parse buf off)) i.before i.behind);
          listing_after =
              list_block-record after off (omega arith) (omega arith) whole
              ∙ rw (old, rec')
                  (ap (◌++◌ (listed (parse buf off))) i.listing_after
                    ∙ sym (
                        append_assoc (listed (parse buf off)) i.before
                          (entry name ino file_type listable ∷ i.behind)));
        }

  step-Placed :
      (buf : List ℕ) (off : ℕ) (r : Option (List ℕ))
      → Placed name ino file_type listable buf (off + rec_len_at buf off) r
      → off + 8 ≤ length buf
      → 8 ≤ rec_len_at buf off
      → off + rec_len_at buf off ≤ length buf
      → used_len_at buf off ≤ rec_len_at buf off
      → IsChain buf off
      → slack_of (rec_len_at buf off) (used_len_at buf off) < dirent_len (length name)
      → Placed name ino file_type listable buf off r
  step-Placed buf off _ (no_room none_behind) here long inside fit chain small =
      no_room (no_slack off small none_behind)
  step-Placed buf off _ (placed after i) here long inside fit chain small =
      placed after (step_over buf off after i here long inside fit chain)

  place_loop-Placed :
      (buf : List ℕ) (fuel off : ℕ)
      → length buf < 65536
      → length buf ≤ off + fuel
      → IsChain buf off
      → (r : Option (List ℕ)) × (place_loop name ino file_type fuel buf off ≡ ok r)
        × Placed name ino file_type listable buf off r
  unfolding place_loop
  place_loop-Placed buf zero off word h (chain_end _ past) =
      (none, refl, no_room (no_more off past))
  place_loop-Placed buf (suc fuel) off word h (chain_end _ past) =
      let out : leb (off + 8) (length buf) ≡ false = ground arith in
      (none, rw (out, place_loop), no_room (no_more off past))
  place_loop-Placed buf zero off word h (chain_record _ here long inside fit rest) =
      absurd (omega arith)
  place_loop-Placed buf (suc fuel) off word h (chain_record _ here long inside fit rest) =
      let inn : leb (off + 8) (length buf) ≡ true = ground arith in
      let sound : ltb (rec_len_at buf off) 8 ≡ false = ground arith in
      let chain = chain_record off here long inside fit rest in
      let slack = slack_of (rec_len_at buf off) (used_len_at buf off) in
      elim (Bool-cases (leb (dirent_len (length name)) slack)) [
        | inl roomy ↦
            let (after, runs, i) =
              place_here name ino file_type listable buf off word here long inside fit chain rest
                roomy in
            (some after, rw (inn, sound, roomy, runs, place_loop), placed after i)
        | inr full ↦
            let (r, runs, p) =
              place_loop-Placed buf fuel (off + rec_len_at buf off) word (omega arith) rest in
            (
              r,
              rw (inn, sound, full, place_loop) runs,
              step-Placed buf off r p here long inside fit chain (ground arith),
            )
      ]

  -- On a block whose records follow one another, the scan of add_dir_entry returns: either no record
  -- has room for the entry, or the block that it returns is again such a block, of the same length,
  -- and lists the entries of the old one with the new entry among them.
  pub place_loop_inserts :
      (buf : List ℕ)
      → length buf < 65536
      → IsChain buf 0
      → (r : Option (List ℕ)) × (place_loop name ino file_type (length buf) buf 0 ≡ ok r)
        × Placed name ino file_type listable buf 0 r
  place_loop_inserts buf word chain = place_loop-Placed buf (length buf) 0 word (omega arith) chain
