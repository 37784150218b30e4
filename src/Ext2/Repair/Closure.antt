-- ===== src/Ext2/Repair/Closure.antt =====
-- ext2/src/repair.rs: a walk that returns has marked everything that is reachable.
use rust_so_kernel.Prelude.{
  replicate, length-replicate, get_elem?, some, none, ◌%◌, ℕ, zero, suc, ◌+◌, ◌-◌, ◌*◌, ◌/◌, ◌≤◌,
  ◌≡◌, ◌⊎◌, inl, inr, refl, sym, ap, ◌∙◌, true, false, ◌||◌, List, [], ◌∷◌, length, leb, ltb, All,
  arith, Bool-cases, subst,
}
use mathlib.Core.List.{Memᴰ}
use rust_so_kernel.Prelude.Bits.{bit_test}
use rust_so_kernel.Ext2.{Outcome, ok, ok_inj, then-ok}
use rust_so_kernel.Ext2.Bitmap.{bit_is_set}
use rust_so_kernel.Ext2.Device.{BlockDevice}
use rust_so_kernel.Ext2.Superblock.{Superblock, root_ino}
use rust_so_kernel.Ext2.Inode.{RawInode}
use rust_so_kernel.Ext2.Volume.{read_inode, inode_location}
use rust_so_kernel.Ext2.Records.{DirEntry}
use rust_so_kernel.Ext2.Repair.{
  Marks, mark_bit_1based, bit_set_1based, mark_all, mark_entries, blocks_of, children_of,
  mark_reachable,
}
use rust_so_kernel.Ext2.Repair.Marking.{
  BlockMarked, mark_all-marks, mark_all-keeps, mark_all-length, mark_bit-length, mark_1based-keeps,
  mark_1based_self, mark_1based-other,
}

mark_1based-length :
    (bitmap : List ℕ) (ino : ℕ) → length (mark_bit_1based bitmap ino) ≡ length bitmap
unfolding mark_bit_1based
mark_1based-length bitmap ino = elim (Bool-cases (leb 1 ino)) [
  | inl e ↦ rw (e, mark_bit_1based) (mark_bit-length bitmap (ino - 1))
  | inr e ↦ rw (e, mark_bit_1based)
]

bit_test-zero : (k : ℕ) → bit_test k 0 ≡ false
unfolding bit_test
bit_test-zero zero = refl
bit_test-zero (suc k) = bit_test-zero k

get_elem?-zeros :
    (n i k : ℕ)
    → elim (get_elem? {A = ℕ} (replicate n 0) i) [ none ↦ false | some byte ↦ bit_test k byte ]
      ≡ false
get_elem?-zeros zero i k = refl
get_elem?-zeros (suc n) zero k = bit_test-zero k
get_elem?-zeros (suc n) (suc i) k = get_elem?-zeros n i k

bit_set_1based-zeros : (n i : ℕ) → bit_set_1based (replicate n 0) i ≡ false
unfolding bit_set_1based bit_is_set
bit_set_1based-zeros n i = elim (Bool-cases (leb 1 i)) [
  | inl e ↦ rw (e, bit_set_1based) (get_elem?-zeros n ((i - 1) / 8) ((i - 1) % 8))
  | inr e ↦ rw (e, bit_set_1based)
]

All-map :
    {A : Type 0} {P Q : A → Type 0} (xs : List A) → ((x : A) → P x → Q x) → All P xs → All Q xs
All-map [] f h = tt
All-map (x ∷ xs) f h = (f x h.0, All-map xs f h.1)

All-Mem : {A : Type 0} (xs : List A) (P : A → Type 0) (x : A) → All P xs → Memᴰ x xs → P x
All-Mem [] P x h m = elim m [ ]
All-Mem (y ∷ xs) P x h (Memᴰ.head e) = subst P (sym e) h.0
All-Mem (y ∷ xs) P x h (Memᴰ.tail m) = All-Mem xs P x h.1 m

module _ (device : BlockDevice) (sb : Superblock) (disk : device.Disk) where
  abbrev pub IsMarked : Marks → ℕ → Type 0
  IsMarked m i = bit_set_1based m.used_inodes i ≡ true

  -- The inode's own blocks and its children are marked.
  pub record IsComplete (m : Marks) (ino : ℕ) : Type 0 where
    pub raw : RawInode
    pub blocks : List ℕ
    pub entries : List DirEntry
    pub reads : read_inode device sb ino disk ≡ ok raw
    pub owns : blocks_of device sb raw disk ≡ ok blocks
    pub lists : children_of device sb raw disk ≡ ok entries
    pub blocks_marked : All (BlockMarked m.used_blocks) blocks
    pub entries_marked : All (λ (e : DirEntry). IsMarked m e.ino) entries

  -- What a walk adds: marks stay, and an inode that is newly marked is complete.
  pub record HasGrown (a b : Marks) : Type 0 where
    pub inodes_length : length b.used_inodes ≡ length a.used_inodes
    pub blocks_length : length b.used_blocks ≡ length a.used_blocks
    pub inodes_kept : (i : ℕ) → IsMarked a i → IsMarked b i
    pub blocks_kept :
        (j : ℕ) → bit_is_set a.used_blocks j ≡ true → bit_is_set b.used_blocks j ≡ true
    pub closed : (i : ℕ) → IsMarked b i → IsMarked a i ⊎ IsComplete b i

  block_kept :
      (a b : Marks) (j : ℕ)
      → HasGrown a b
      → BlockMarked a.used_blocks j
      → BlockMarked b.used_blocks j
  block_kept a b j g (inl h) = inl (g.blocks_kept j h)
  block_kept a b j g (inr h) = let size = g.blocks_length in inr (omega arith)

  IsComplete-kept : (a b : Marks) (i : ℕ) → HasGrown a b → IsComplete a i → IsComplete b i
  IsComplete-kept a b i g c = record {
    raw = c.raw;
    blocks = c.blocks;
    entries = c.entries;
    reads = c.reads;
    owns = c.owns;
    lists = c.lists;
    blocks_marked = All-map c.blocks (λ j. block_kept a b j g) c.blocks_marked;
    entries_marked = All-map c.entries (λ e. g.inodes_kept e.ino) c.entries_marked;
  }

  grown_refl : (a : Marks) → HasGrown a a
  grown_refl a = record {
    inodes_length = refl;
    blocks_length = refl;
    inodes_kept = λ i h. h;
    blocks_kept = λ j h. h;
    closed = λ i h. inl h;
  }

  grown_trans : (a b c : Marks) → HasGrown a b → HasGrown b c → HasGrown a c
  grown_trans a b c g h = record {
    inodes_length = h.inodes_length ∙ g.inodes_length;
    blocks_length = h.blocks_length ∙ g.blocks_length;
    inodes_kept = λ i m. h.inodes_kept i (g.inodes_kept i m);
    blocks_kept = λ j m. h.blocks_kept j (g.blocks_kept j m);
    closed = λ i m. elim (h.closed i m) [
      | inr k ↦ inr k
      | inl m' ↦ elim (g.closed i m') [
        | inl m'' ↦ inl m''
        | inr k ↦ inr (IsComplete-kept b c i h k)
      ]
    ];
  }

  -- A walk over the entries of a directory, if the walk from each of them grows the marks.
  mark_entries-grown :
      (mark : ℕ → Marks → Outcome Marks) (es : List DirEntry) (a : Marks) {b : Marks}
      → ((ino : ℕ) (c d : Marks)
          → length c.used_inodes ≡ length a.used_inodes
          → mark ino c ≡ ok d
          → HasGrown c d × IsMarked d ino)
      → mark_entries mark es a ≡ ok b
      → HasGrown a b × All (λ (e : DirEntry). IsMarked b e.ino) es
  mark_entries-grown mark [] a {b} each h =
      (subst (λ (m : Marks). HasGrown a m) (ok_inj h) (grown_refl a), tt)
  mark_entries-grown mark (e ∷ es) a {b} each h =
      let (c, first, h1) = then-ok (mark e.ino a) (mark_entries mark es) h in
      let (g, marked) = each e.ino a c refl first in
      let (g', all) =
        mark_entries-grown mark es c (λ ino x d len run. each ino x d (len ∙ g.inodes_length) run)
          h1 in
      (grown_trans a c b g g', (g'.inodes_kept e.ino marked, all))

  -- An inode that is read has a number in range.
  read_inode-range :
      (ino : ℕ) {raw : RawInode}
      → read_inode device sb ino disk ≡ ok raw
      → (1 ≤ ino) × (ino ≤ sb.inodes_count)
  unfolding read_inode inode_location
  read_inode-range ino {raw} h = elim (Bool-cases (ltb ino 1 || ltb sb.inodes_count ino)) [
    | inl bad ↦ absurd (let h' = rw (bad, read_inode, inode_location) at h in cc)
    | inr good ↦ (ground arith, ground arith)
  ]

  -- An inode that was not marked: itself, its blocks and its children.
  walk_step :
      (ino : ℕ) (a b : Marks) (raw : RawInode) (blocks : List ℕ) (entries : List DirEntry)
      → sb.inodes_count ≤ length a.used_inodes * 8
      → (mark : ℕ → Marks → Outcome Marks) → read_inode device sb ino disk ≡ ok raw
      → blocks_of device sb raw disk ≡ ok blocks
      → children_of device sb raw disk ≡ ok entries
      → ((x : ℕ) (c d : Marks)
          → length c.used_inodes ≡ length a.used_inodes
          → mark x c ≡ ok d
          → HasGrown c d × IsMarked d x)
      → mark_entries mark entries (record {
        used_inodes = mark_bit_1based a.used_inodes ino;
        used_blocks = mark_all a.used_blocks blocks;
      })
        ≡ ok b
      → HasGrown a b × IsMarked b ino
  walk_step ino a b raw blocks entries room mark reads owns lists each h =
      let m : Marks = record {
        used_inodes = mark_bit_1based a.used_inodes ino;
        used_blocks = mark_all a.used_blocks blocks;
      } in
      let len = mark_1based-length a.used_inodes ino in
      let (low, high) = read_inode-range ino reads in
      let (g, all) =
        mark_entries-grown mark entries m (λ x c d l run. each x c d (l ∙ len) run) h in
      let complete : IsComplete b ino = record {
        raw = raw;
        blocks = blocks;
        entries = entries;
        reads = reads;
        owns = owns;
        lists = lists;
        blocks_marked =
            All-map blocks (λ j. block_kept m b j g) (mark_all-marks a.used_blocks blocks);
        entries_marked = all;
      } in
      let self = mark_1based_self a.used_inodes ino low (omega arith) in
      (
        record {
          inodes_length = g.inodes_length ∙ len;
          blocks_length = g.blocks_length ∙ mark_all-length a.used_blocks blocks;
          inodes_kept = λ i k. g.inodes_kept i (mark_1based-keeps a.used_inodes ino i k);
          blocks_kept = λ j k. g.blocks_kept j (mark_all-keeps a.used_blocks blocks j k);
          closed = λ i k. elim (g.closed i k) [
            | inr c ↦ inr c
            | inl k' ↦ elim (mark_1based-other a.used_inodes ino i low (omega arith) k') [
              | inl before ↦ inl before
              | inr e ↦ inr (subst (λ (x : ℕ). IsComplete b x) (sym e) complete)
            ]
          ];
        },
        g.inodes_kept ino self,
      )

  mark_reachable-grown :
      (depth ino : ℕ) (a b : Marks)
      → sb.inodes_count ≤ length a.used_inodes * 8
      → mark_reachable device sb depth disk ino a ≡ ok b
      → HasGrown a b × IsMarked b ino
  unfolding mark_reachable
  mark_reachable-grown zero ino a b room h = elim (Bool-cases (bit_set_1based a.used_inodes ino)) [
    | inl seen ↦
        let same : a ≡ b = ok_inj (rw (seen, mark_reachable) at h) in
        subst (λ (m : Marks). HasGrown a m × IsMarked m ino) same (grown_refl a, seen)
    | inr new ↦ absurd (let h' = rw (new, mark_reachable) at h in cc)
  ]
  mark_reachable-grown (suc depth) ino a b room h =
      elim (Bool-cases (bit_set_1based a.used_inodes ino)) [
        | inl seen ↦
            let same : a ≡ b = ok_inj (rw (seen, mark_reachable) at h) in
            subst (λ (m : Marks). HasGrown a m × IsMarked m ino) same (grown_refl a, seen)
        | inr new ↦
            let (raw, reads, h1) =
              then-ok (read_inode device sb ino disk) _ (rw (new, mark_reachable) at h) in
            let (blocks, owns, h2) = then-ok (blocks_of device sb raw disk) _ h1 in
            let (entries, lists, h3) = then-ok (children_of device sb raw disk) _ h2 in
            walk_step ino a b raw blocks entries room (mark_reachable device sb depth disk) reads
              owns lists (λ x c d len run. mark_reachable-grown depth x c d (rw len room) run) h3
      ]

  -- The inodes that a path of directory entries leads to from the root.
  pub data Reachable : ℕ → Type 0 where
    root : Reachable root_ino
    child :
        (ino : ℕ) (raw : RawInode) (entries : List DirEntry) (e : DirEntry)
        → Reachable ino
        → read_inode device sb ino disk ≡ ok raw
        → children_of device sb raw disk ≡ ok entries
        → Memᴰ e entries
        → Reachable e.ino

  -- What is marked and was not before has its children marked.
  IsMarked-child :
      (b : Marks) (ino : ℕ) (raw : RawInode) (entries : List DirEntry) (e : DirEntry)
      → IsComplete b ino
      → read_inode device sb ino disk ≡ ok raw
      → children_of device sb raw disk ≡ ok entries
      → Memᴰ e entries
      → IsMarked b e.ino
  IsMarked-child b ino raw entries e c reads lists mem =
      let same_raw : c.raw ≡ raw = ok_inj (sym c.reads ∙ reads) in
      let same : c.entries ≡ entries =
        ok_inj (sym c.lists ∙ ap (λ r. children_of device sb r disk) same_raw ∙ lists) in
      All-Mem entries (λ (x : DirEntry). IsMarked b x.ino) e
        (subst (λ (es : List DirEntry). All (λ (x : DirEntry). IsMarked b x.ino) es) same
          c.entries_marked)
        mem

  reachable-IsMarked :
      (b : Marks)
      → IsMarked b root_ino
      → ((i : ℕ) → IsMarked b i → IsComplete b i)
      → (ino : ℕ) → Reachable ino
      → IsMarked b ino
  reachable-IsMarked b start complete _ root = start
  reachable-IsMarked b start complete _ (child ino raw entries e path reads lists mem) =
      IsMarked-child b ino raw entries e
        (complete ino (reachable-IsMarked b start complete ino path)) reads lists mem

  walk-IsComplete :
      (depth : ℕ) (a b : Marks)
      → sb.inodes_count ≤ length a.used_inodes * 8
      → ((i : ℕ) → bit_set_1based a.used_inodes i ≡ false)
      → mark_reachable device sb depth disk root_ino a ≡ ok b
      → (ino : ℕ) → Reachable ino
      → IsMarked b ino × IsComplete b ino
  walk-IsComplete depth a b room clear h ino path =
      let (g, marked) = mark_reachable-grown depth root_ino a b room h in
      let complete : (i : ℕ) → IsMarked b i → IsComplete b i = λ i m. elim (g.closed i m) [
        | inl before ↦ absurd (let before' = before in let none' = clear i in cc)
        | inr c ↦ c
      ] in
      let all : IsMarked b ino = reachable-IsMarked b marked complete ino path in
      (all, complete ino all)

  -- The walk of reclaim_orphans from the root, when it returns, has marked every reachable inode, the
  -- blocks that it owns (but for numbers too large for the bitmap) and the entries of its directory.
  pub mark_reachable-IsComplete :
      (depth : ℕ) (used_blocks : List ℕ) (b : Marks)
      → mark_reachable device sb depth disk root_ino (record {
        used_inodes = replicate ((sb.inodes_count + 7) / 8) 0;
        used_blocks = used_blocks;
      })
        ≡ ok b
      → (ino : ℕ) → Reachable ino
      → IsMarked b ino × IsComplete b ino
  mark_reachable-IsComplete depth used_blocks b h ino path =
      let n = (sb.inodes_count + 7) / 8 in
      let room : sb.inodes_count ≤ n * 8 = omega arith in
      walk-IsComplete depth (record { used_inodes = replicate n 0; used_blocks = used_blocks }) b
        (rw (length-replicate {A = ℕ} n 0) room) (bit_set_1based-zeros n) h ino path
