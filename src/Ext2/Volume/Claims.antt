-- ===== src/Ext2/Volume/Claims.antt =====
-- ext2/src/volume.rs: what `alloc_block` finds and leaves.
use rust_so_kernel.Prelude.{
  ℕ, zero, suc, ◌+◌, ◌*◌, ◌≤◌, ◌<◌, ◌≡◌, ◌≢◌, refl, sym, ap, ◌∙◌, true, false, List, length, ◌==◌,
  arith, inl, inr, Bool-cases, replicate, length-replicate, Option, none, some, ==→eq, subst,
}
use rust_so_kernel.Ext2.{ok, ok_inj, add_u32, mul_u32}
use rust_so_kernel.Ext2.Bitmap.{bit_is_set}
use rust_so_kernel.Ext2.Bitmap.Scan.{FreeBit, full, lowest, find_first_free_bit_lowest}
use rust_so_kernel.Ext2.Bitmap.Marks.{Marked, set_bit-Marked}
use rust_so_kernel.Ext2.Device.{BlockDevice}
use rust_so_kernel.Ext2.Superblock.{Superblock, BlockGroupDesc, bgd_location}
use rust_so_kernel.Ext2.Volume.{block_vec, read_bgd, blocks_in_group, lba_of}
use rust_so_kernel.Ext2.Volume.Actions.{Action, write_block, adjust_bgd_counts, adjust_sb_counts}
use rust_so_kernel.Ext2.Volume.Allocation.{claim_block, alloc_block_from, alloc_block, minus_one}
use rust_so_kernel.Ext2.Volume.Blocks.{
  HasAddresses, block_vec-written, block_vec-other, block_vec-length,
}
use rust_so_kernel.Ext2.Volume.Counters.{adjust_bgd_counts-other, adjust_sb_counts-other}
use rust_so_kernel.Ext2.Volume.Inodes.{step-done, look-done}

module _ (device : BlockDevice) (sb : Superblock) where
  -- The number of the block at a bit of a group's bitmap.
  abbrev pub block_at : ℕ → ℕ → ℕ
  block_at group bit = add_u32 (add_u32 sb.first_data_block (mul_u32 group sb.blocks_per_group)) bit

  -- A group from which nothing can be allocated.
  pub data IsFull (disk : device.Disk) (group : ℕ) : Type 0 where
    counted_full :
        (bgd : BlockGroupDesc)
        → read_bgd device sb group disk ≡ ok bgd
        → bgd.free_blocks ≡ 0
        → IsFull disk group
    marked_full :
        (bgd : BlockGroupDesc) (bmap : List ℕ)
        → read_bgd device sb group disk ≡ ok bgd
        → block_vec device sb bgd.block_bitmap disk ≡ ok bmap
        → ((j : ℕ) → j < blocks_in_group device sb group → bit_is_set bmap j ≡ true)
        → IsFull disk group

  -- The claim of a block that was free: the lowest clear bit of its group's bitmap.
  pub record Claimed (before after : device.Disk) (group block_num : ℕ) : Type 0 where
    pub bgd : BlockGroupDesc
    pub bmap : List ℕ
    pub bit : ℕ
    pub descriptor : read_bgd device sb group before ≡ ok bgd
    pub bitmap : block_vec device sb bgd.block_bitmap before ≡ ok bmap
    pub inside : bit < blocks_in_group device sb group
    pub was_free : bit_is_set bmap bit ≡ false
    pub lower : (j : ℕ) → j < bit → bit_is_set bmap j ≡ true
    pub number : block_num ≡ block_at group bit
    pub reads_zero : block_vec device sb block_num after ≡ ok (replicate sb.block_size 0)
    -- The bitmap is the old one with the bit set, if it is no other block that alloc_block writes.
    pub marked :
        (blk off : ℕ)
        → bgd_location sb group ≡ ok (blk, off)
        → blk ≢ bgd.block_bitmap
        → block_num ≢ bgd.block_bitmap
        → 4 ≤ lba_of device sb bgd.block_bitmap
        → (bmap' : List ℕ) × (block_vec device sb bgd.block_bitmap after ≡ ok bmap')
          × Marked bmap bit true bmap'

  -- The outcome of a search of the `n` groups from `first`.
  pub data Allocation (first n : ℕ) (before after : device.Disk) : Option ℕ → Type 0 where
    none_free :
        ((g : ℕ) → first ≤ g → g < first + n → IsFull before g)
        → after ≡ before
        → Allocation first n before after none
    allocated :
        (group block_num : ℕ)
        → first ≤ group
        → group < first + n
        → ((g : ℕ) → first ≤ g → g < group → IsFull before g)
        → Claimed before after group block_num
        → Allocation first n before after (some block_num)

module _ (device : BlockDevice) (sb : Superblock) (a : HasAddresses device sb)
    (room : sb.blocks_per_group ≤ sb.block_size * 8) where
  claim_block-Claimed :
      (group bit : ℕ) (bgd : BlockGroupDesc) (bmap : List ℕ) (rest : Action device.Disk (Option ℕ))
      (disk : device.Disk) {after : device.Disk} {r : Option ℕ}
      → claim_block device sb group bgd.block_bitmap bmap (some bit) rest disk ≡ (ok r, after)
      → read_bgd device sb group disk ≡ ok bgd
      → block_vec device sb bgd.block_bitmap disk ≡ ok bmap
      → bit < blocks_in_group device sb group
      → bit < length bmap * 8
      → bit_is_set bmap bit ≡ false
      → ((j : ℕ) → 0 ≤ j → j < bit → bit_is_set bmap j ≡ true)
      → (some (block_at device sb group bit) ≡ r)
        × Claimed device sb disk after group (block_at device sb group bit)
  unfolding claim_block
  claim_block-Claimed group bit bgd bmap rest disk {after} {r} h has_bgd has_bmap inside within free
        low =
      let (marked, sets, m) = set_bit-Marked bmap bit within in
      let b = block_at device sb group bit in
      let zeros = replicate sb.block_size 0 in
      let (d1, e1, h1) =
        step-done (write_block device sb bgd.block_bitmap marked disk) _
          (rw (sets, claim_block) at h) in
      let (d2, e2, h2) = step-done (adjust_bgd_counts device sb group minus_one 0 0 d1) _ h1 in
      let (d3, e3, h3) = step-done (adjust_sb_counts device sb minus_one 0 d2) _ h2 in
      let (d4, e4, h4) = step-done (write_block device sb b zeros d3) _ h3 in
      let last : d4 ≡ after = ap (λ p. p.1) h4 in
      let reads_zero : block_vec device sb b d4 ≡ ok zeros =
        block_vec-written device sb a b zeros d3 e4 (length-replicate sb.block_size 0) in
      let len : length marked ≡ sb.block_size =
        m.same_length ∙ block_vec-length device sb a bgd.block_bitmap disk has_bmap in
      let stays : (blk off : ℕ)
          → bgd_location sb group ≡ ok (blk, off)
          → blk ≢ bgd.block_bitmap
          → b ≢ bgd.block_bitmap
          → 4 ≤ lba_of device sb bgd.block_bitmap
          → block_vec device sb bgd.block_bitmap d4 ≡ ok marked =
        λ blk off loc n n' behind.
          block_vec-other device sb a b bgd.block_bitmap zeros d3 e4 n'
          ∙ adjust_sb_counts-other device sb a minus_one 0 bgd.block_bitmap d2 e3 behind
          ∙ adjust_bgd_counts-other device sb a group minus_one 0 0 blk off bgd.block_bitmap d1 e2
              loc n
          ∙ block_vec-written device sb a bgd.block_bitmap marked disk e1 len in
      (
        ok_inj (ap (λ p. p.0) h4),
        subst (λ (d : device.Disk). Claimed device sb disk d group b) last
            (record {
              bgd = bgd;
              bmap = bmap;
              bit = bit;
              descriptor = has_bgd;
              bitmap = has_bmap;
              inside = inside;
              was_free = free;
              lower = λ j k. low j (omega arith) k;
              number = refl;
              reads_zero = reads_zero;
              marked = λ blk off loc n n' behind. (marked, stays blk off loc n n' behind, m);
            }),
      )

  blocks_in_group-le : (group : ℕ) → blocks_in_group device sb group ≤ sb.block_size * 8
  unfolding blocks_in_group
  blocks_in_group-le group = omega (arith, room)

  -- A full group before the ones searched.
  skip_full :
      (first n : ℕ) (before after : device.Disk) (r : Option ℕ)
      → IsFull device sb before first
      → Allocation device sb (suc first) n before after r
      → Allocation device sb first (suc n) before after r
  skip_full first n before after _ f (none_free rest same) =
      none_free
        (λ g h k. elim (Bool-cases (first == g)) [
          | inl e ↦ subst (λ (x : ℕ). IsFull device sb before x) (==→eq _ _ e) f
          | inr e ↦ rest g (ground arith) (omega arith)
        ])
        same
  skip_full first n before after _ f (allocated group b h k rest c) =
      allocated group b (omega arith) (omega arith)
        (λ g h' k'. elim (Bool-cases (first == g)) [
          | inl e ↦ subst (λ (x : ℕ). IsFull device sb before x) (==→eq _ _ e) f
          | inr e ↦ rest g (ground arith) k'
        ])
        c

  -- What the search does with the free bit of a group.
  claim_found :
      (group n : ℕ) (bgd : BlockGroupDesc) (bmap : List ℕ) (found : Option ℕ) (disk : device.Disk)
      {after : device.Disk} {r : Option ℕ}
      → (alloc_block_from device sb n (suc group) disk ≡ (ok r, after)
          → Allocation device sb (suc group) n disk after r)
      → claim_block device sb group bgd.block_bitmap bmap found
          (alloc_block_from device sb n (suc group))
          disk
        ≡ (ok r, after)
      → read_bgd device sb group disk ≡ ok bgd
      → block_vec device sb bgd.block_bitmap disk ≡ ok bmap
      → FreeBit bmap 0 (blocks_in_group device sb group) found
      → Allocation device sb group (suc n) disk after r
  unfolding claim_block
  claim_found group n bgd bmap _ disk {after} {r} rest h has_bgd has_bmap (full all) =
      skip_full group n disk after r
        (marked_full bgd bmap has_bgd has_bmap (λ j k. all j (omega arith) k)) (rest h)
  claim_found group n bgd bmap _ disk {after} {r} rest h has_bgd has_bmap
        (lowest bit _ inside free low) =
      let len = block_vec-length device sb a bgd.block_bitmap disk has_bmap in
      let bound = blocks_in_group-le group in
      let (is, c) =
        claim_block-Claimed group bit bgd bmap (alloc_block_from device sb n (suc group)) disk h
          has_bgd has_bmap inside (omega arith) free low in
      subst (λ (o : Option ℕ). Allocation device sb group (suc n) disk after o) is
        (allocated group (block_at device sb group bit) (omega arith) (omega arith)
          (λ g k l. absurd (omega arith)) c)

  alloc_block_from-Allocation :
      (n group : ℕ) (disk : device.Disk) {after : device.Disk} {r : Option ℕ}
      → alloc_block_from device sb n group disk ≡ (ok r, after)
      → Allocation device sb group n disk after r
  unfolding alloc_block_from
  alloc_block_from-Allocation zero group disk {after} {r} h =
      subst (λ (o : Option ℕ). Allocation device sb group 0 disk after o) (ok_inj (ap (λ p. p.0) h))
        (none_free (λ g k l. absurd (omega arith)) (sym (ap (λ p. p.1) h)))
  alloc_block_from-Allocation (suc n) group disk {after} {r} h =
      let (bgd, has_bgd, h1) = look-done (read_bgd device sb group disk) disk _ h in
      elim (Bool-cases (bgd.free_blocks == 0)) [
        | inl zero' ↦
            skip_full group n disk after r (counted_full bgd has_bgd (==→eq _ _ zero'))
              (alloc_block_from-Allocation n (suc group) disk (rw zero' at h1))
        | inr some' ↦
            let (bmap, has_bmap, h2) =
              look-done (block_vec device sb bgd.block_bitmap disk) disk _ (rw some' at h1) in
            let len = block_vec-length device sb a bgd.block_bitmap disk has_bmap in
            let bound = blocks_in_group-le group in
            let (found, runs, free) =
              find_first_free_bit_lowest bmap (blocks_in_group device sb group) (omega arith) in
            claim_found group n bgd bmap found disk (alloc_block_from-Allocation n (suc group) disk)
              (rw runs at h2) has_bgd has_bmap free
      ]

  -- When alloc_block returns a block, it is the lowest free one of the first group that is not full:
  -- its bit was clear, all lower bits are set, the block reads as zeros afterwards, and its bit is
  -- set if the bitmap stands in none of the other blocks that are written. When it returns none,
  -- every group is full by its count or by its bitmap, and the disk is unchanged.
  pub alloc_block-Allocation :
      (disk : device.Disk) {after : device.Disk} {r : Option ℕ}
      → alloc_block device sb disk ≡ (ok r, after)
      → Allocation device sb 0 sb.num_groups disk after r
  unfolding alloc_block
  alloc_block-Allocation disk h = alloc_block_from-Allocation sb.num_groups 0 disk h
