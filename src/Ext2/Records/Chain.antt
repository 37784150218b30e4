-- ===== src/Ext2/Records/Chain.antt =====
-- ext2/src/dir.rs: blocks whose records follow one another, and the listing of such a block.
use rust_so_kernel.Prelude.{
  ℕ, zero, suc, ◌+◌, ◌<◌, ◌≤◌, ◌≡◌, refl, sym, ap, ◌∙◌, true, false, List, [], ◌++◌, length, get_or,
  leb, ltb, part, arith, get_or-part,
}
use rust_so_kernel.Ext2.Dirent.{parse}
use rust_so_kernel.Ext2.Records.{
  listed, rec_len_at, ino_at, name_len_at, used_len_at, list_loop, list_block,
}

-- From `off` on, every record has its header and its own length in the block, and a live one has
-- room for its name.
pub data IsChain (buf : List ℕ) : ℕ → Type 0 where
  chain_end : (off : ℕ) → length buf < off + 8 → IsChain buf off
  chain_record :
      (off : ℕ)
      → off + 8 ≤ length buf
      → 8 ≤ rec_len_at buf off
      → off + rec_len_at buf off ≤ length buf
      → used_len_at buf off ≤ rec_len_at buf off
      → IsChain buf (off + rec_len_at buf off)
      → IsChain buf off

list_loop-end :
    (fuel : ℕ) (buf : List ℕ) (off : ℕ) → length buf < off + 8 → list_loop fuel buf off ≡ []
unfolding list_loop
list_loop-end zero buf off h = refl
list_loop-end (suc fuel) buf off h =
    let past : leb (off + 8) (length buf) ≡ false = ground arith in rw (past, list_loop)

list_loop-record :
    (fuel : ℕ) (buf : List ℕ) (off : ℕ)
    → off + 8 ≤ length buf
    → 8 ≤ rec_len_at buf off
    → list_loop (suc fuel) buf off
      ≡ listed (parse buf off) ++ list_loop fuel buf (off + rec_len_at buf off)
unfolding list_loop
list_loop-record fuel buf off h k =
    let here : leb (off + 8) (length buf) ≡ true = ground arith in
    let long : ltb (rec_len_at buf off) 8 ≡ false = ground arith in rw (here, long, list_loop)

-- The listing does not depend on the fuel once there is enough of it.
list_loop-fuel :
    (buf : List ℕ) (fuel more off : ℕ)
    → length buf ≤ off + fuel
    → length buf ≤ off + more
    → IsChain buf off
    → list_loop fuel buf off ≡ list_loop more buf off
list_loop-fuel buf fuel more off h k (chain_end _ past) =
    list_loop-end fuel buf off past ∙ sym (list_loop-end more buf off past)
list_loop-fuel buf zero more off h k (chain_record _ here long inside room rest) =
    absurd (omega arith)
list_loop-fuel buf (suc fuel) zero off h k (chain_record _ here long inside room rest) =
    absurd (omega arith)
list_loop-fuel buf (suc fuel) (suc more) off h k (chain_record _ here long inside room rest) = rw (
  list_loop-record fuel buf off here long,
  list_loop-record more buf off here long,
  list_loop-fuel buf fuel more (off + rec_len_at buf off) (omega arith) (omega arith) rest,
)

pub list_block-end : (buf : List ℕ) (off : ℕ) → length buf < off + 8 → list_block buf off ≡ []
unfolding list_block
list_block-end buf off h = list_loop-end (length buf) buf off h

pub list_block-record :
    (buf : List ℕ) (off : ℕ)
    → off + 8 ≤ length buf
    → 8 ≤ rec_len_at buf off
    → IsChain buf off
    → list_block buf off ≡ listed (parse buf off) ++ list_block buf (off + rec_len_at buf off)
unfolding list_block
list_block-record buf off h k c =
    list_loop-fuel buf (length buf) (suc (length buf)) off (omega arith) (omega arith) c
    ∙ list_loop-record (length buf) buf off h k

-- Two blocks that agree from `off` on.
pub record SameBehind (off : ℕ) (a b : List ℕ) : Type 0 where
  pub same_length : length a ≡ length b
  pub parts : (i n : ℕ) → off ≤ i → part i n a ≡ part i n b

module _ (a b : List ℕ) where
  later : {off more : ℕ} → off ≤ more → SameBehind off a b → SameBehind more a b
  later h s = record { same_length = s.same_length; parts = λ i n k. s.parts i n (omega arith) }

  byte-same : {off : ℕ} (i : ℕ) → off ≤ i → SameBehind off a b → get_or a i 0 ≡ get_or b i 0
  byte-same i h s =
      get_or-part i a 0 ∙ ap (λ p. get_or p 0 0) (s.parts i 1 h) ∙ sym (get_or-part i b 0)

  rec_len-same : (off : ℕ) → SameBehind off a b → rec_len_at a off ≡ rec_len_at b off
  rec_len-same off s = rw (s.parts (off + 4) 2 (omega arith))

  parse-same : (off : ℕ) → SameBehind off a b → parse a off ≡ parse b off
  unfolding parse
  parse-same off s = rw (
    s.parts off 4 (omega arith),
    s.parts (off + 4) 2 (omega arith),
    byte-same (off + 6) (omega arith) s,
    byte-same (off + 7) (omega arith) s,
    s.parts (off + 8) (get_or b (off + 6) 0) (omega arith),
    s.same_length,
    parse,
  )

  list_loop-same : (fuel off : ℕ) → SameBehind off a b → list_loop fuel a off ≡ list_loop fuel b off
  unfolding list_loop
  list_loop-same zero off s = refl
  list_loop-same (suc fuel) off s = rw (
    s.same_length,
    parse-same off s,
    rec_len-same off s,
    list_loop-same fuel (off + rec_len_at b off) (later (omega arith) s),
  )

  pub list_block-same : (off : ℕ) → SameBehind off a b → list_block a off ≡ list_block b off
  unfolding list_block
  list_block-same off s =
      ap (λ n. list_loop n a off) s.same_length ∙ list_loop-same (length b) off s

  pub IsChain-same : (off : ℕ) → SameBehind off a b → IsChain b off → IsChain a off
  IsChain-same off s (chain_end _ past) = let len = s.same_length in chain_end off (omega arith)
  IsChain-same off s (chain_record _ here long inside room rest) =
      let len = s.same_length in
      let size = rec_len-same off s in
      let ino : ino_at a off ≡ ino_at b off = rw (s.parts off 4 (omega arith)) in
      let name : name_len_at a off ≡ name_len_at b off = byte-same (off + 6) (omega arith) s in
      let used : used_len_at a off ≡ used_len_at b off = rw (ino, name) in
      chain_record off (omega arith) (omega arith) (omega arith) (omega arith)
        (rw size (IsChain-same (off + rec_len_at b off) (later (omega arith) s) rest))
