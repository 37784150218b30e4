-- ===== src/Ext2/Volume/Inodes.antt =====
-- ext2/src/volume.rs: an inode record that is written is read back.
use rust_so_kernel.Prelude.{
  ℕ, ◌+◌, ◌-◌, ◌/◌, ◌≤◌, ◌≡◌, ◌≢◌, refl, sym, ap, ◌∙◌, List, length, ◌==◌, ◌||◌, ltb, leb, arith,
  inl, inr, Bool-cases, part, patch, length-patch, part-patch_self, ==→eq,
}
use rust_so_kernel.Ext2.{Outcome, ok, err, halted, slice-ok, copy_at-eq}
use rust_so_kernel.Ext2.Device.{BlockDevice}
use rust_so_kernel.Ext2.Superblock.{Superblock, bgd_location}
use rust_so_kernel.Ext2.Inode.{RawInode}
use rust_so_kernel.Ext2.Volume.{block_vec, inode_location, read_inode}
use rust_so_kernel.Ext2.Volume.Actions.{Action, and_then, write_block}
use rust_so_kernel.Ext2.Volume.Allocation.{write_inode, copy_record}
use rust_so_kernel.Ext2.Volume.Blocks.{
  HasAddresses, block_vec-written, block_vec-other, block_vec-length,
}

-- An action that is done was done at its first step.
pub and_then-done :
    {S A B : Type 0} (r : Outcome A × S) (f : A → Action S B) {b : B} {after : S}
    → and_then r f ≡ (ok b, after)
    → (a : A) × (s : S) × (r ≡ (ok a, s)) × (f a s ≡ (ok b, after))
and_then-done (ok a, s) f h = (a, s, refl, h)
and_then-done (err e, s) f h = absurd (let h' = ap (λ p. p.0) h in cc)
and_then-done (halted, s) f h = absurd (let h' = ap (λ p. p.0) h in cc)

-- The same for a step with no value.
pub step-done :
    {S B : Type 0} (r : Outcome (Unit {0}) × S) (f : Unit {0} → Action S B) {b : B} {after : S}
    → and_then r f ≡ (ok b, after)
    → (s : S) × (r ≡ (ok tt, s)) × (f tt s ≡ (ok b, after))
step-done (ok tt, s) f h = (s, refl, h)
step-done (err e, s) f h = absurd (let h' = ap (λ p. p.0) h in cc)
step-done (halted, s) f h = absurd (let h' = ap (λ p. p.0) h in cc)

-- The same for a read, which leaves the disk.
pub look-done :
    {S A B : Type 0} (r : Outcome A) (s : S) (f : A → Action S B) {b : B} {after : S}
    → and_then (r, s) f ≡ (ok b, after)
    → (a : A) × (r ≡ ok a) × (f a s ≡ (ok b, after))
look-done (ok a) s f h = (a, refl, h)
look-done (err e) s f h = absurd (let h' = ap (λ p. p.0) h in cc)
look-done halted s f h = absurd (let h' = ap (λ p. p.0) h in cc)

copy_record-eq :
    (buf : List ℕ) (off n : ℕ) (raw : RawInode) {out : List ℕ}
    → copy_record buf off n raw ≡ ok out
    → (length raw ≡ n) × (patch buf off raw ≡ out) × (off + length raw ≤ length buf)
copy_record-eq buf off n raw {out} h = elim (Bool-cases (length raw == n)) [
  | inl e ↦ let (is, fits) = copy_at-eq buf off raw (rw e at h) in (==→eq _ _ e, is, fits)
  | inr e ↦ absurd (let h' = rw e at h in cc)
]

module _ (device : BlockDevice) (sb : Superblock) (a : HasAddresses device sb) where
  -- A write elsewhere leaves the place of an inode, which one descriptor block decides.
  inode_location-other :
      (ino b blk off : ℕ) (buf : List ℕ) (disk : device.Disk) {after : device.Disk}
      → write_block device sb b buf disk ≡ (ok tt, after)
      → bgd_location sb ((ino - 1) / sb.inodes_per_group) ≡ ok (blk, off)
      → b ≢ blk
      → inode_location device sb ino after ≡ inode_location device sb ino disk
  unfolding inode_location
  inode_location-other ino b blk off buf disk {after} h loc n =
      elim (Bool-cases (ltb ino 1 || ltb sb.inodes_count ino)) [
        | inl bad ↦ rw (bad, inode_location)
        | inr good ↦ elim (Bool-cases (leb sb.num_groups ((ino - 1) / sb.inodes_per_group))) [
          | inl past ↦ rw (good, past, inode_location)
          | inr group ↦
              rw (good, group, loc, block_vec-other device sb a b blk buf disk h n, inode_location)
        ]
      ]

  module _ (ino : ℕ) (raw : RawInode) (disk after : device.Disk) (table_block offset blk off : ℕ)
      (place : inode_location device sb ino disk ≡ ok (table_block, offset))
      (done : write_inode device sb ino raw disk ≡ (ok tt, after)) where
    -- The block that a write of an inode that is done leaves.
    write_inode-eq :
        (block_buf : List ℕ) × (block_vec device sb table_block disk ≡ ok block_buf)
        × (length raw ≡ sb.inode_size)
        × (offset + length raw ≤ length block_buf)
        × (write_block device sb table_block (patch block_buf offset raw) disk ≡ (ok tt, after))
    unfolding write_inode
    write_inode-eq =
        let (block_buf, has, h1) =
          look-done (block_vec device sb table_block disk) disk _
            (rw (place, write_inode) at done) in
        let (patched, made, h2) =
          look-done (copy_record block_buf offset sb.inode_size raw) disk _ h1 in
        let (size, is, fits) = copy_record-eq block_buf offset sb.inode_size raw made in
        (block_buf, has, size, fits, rw (sym is) at h2)

    module _ (loc : bgd_location sb ((ino - 1) / sb.inodes_per_group) ≡ ok (blk, off))
        (apart : table_block ≢ blk) where
      -- A record that write_inode wrote is the one that read_inode returns, if the inode table does
      -- not overlap the block of the group descriptor.
      pub read_inode-write_inode : read_inode device sb ino after ≡ ok raw
      unfolding read_inode
      read_inode-write_inode =
          let (block_buf, has, size, fits, wrote) = write_inode-eq in
          let whole : length (patch block_buf offset raw) ≡ sb.block_size =
            length-patch block_buf offset raw ∙ block_vec-length device sb a table_block disk has in
          let back =
            block_vec-written device sb a table_block (patch block_buf offset raw) disk wrote
              whole in
          let len = length-patch block_buf offset raw in
          let place' : inode_location device sb ino after ≡ ok (table_block, offset) =
            inode_location-other ino table_block blk off (patch block_buf offset raw) disk wrote loc
              apart
            ∙ place in
          let same : part offset sb.inode_size (patch block_buf offset raw) ≡ raw =
            ap (λ n. part offset n (patch block_buf offset raw)) (sym size)
            ∙ part-patch_self offset block_buf raw fits in
          rw (
            place',
            back,
            slice-ok (patch block_buf offset raw) offset sb.inode_size (omega arith),
            same,
            read_inode,
          )
