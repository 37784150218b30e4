-- ===== src/Ext2/Volume/Blocks.antt =====
-- ext2/src/volume.rs: a block that is written is read back, and the other blocks stay.
use rust_so_kernel.Prelude.{
  ℕ, ◌+◌, ◌*◌, ◌%◌, ◌<◌, ◌≤◌, ◌≡◌, ◌≢◌, ◌⊎◌, sym, ap, ◌∙◌, Bool, true, false, List, length, leb,
  arith, inl, inr, Bool-cases, replicate, length-replicate, Option-cases,
}
use native.Mathlib.Nat.{suc-mul, mul-le-mul_right}
use rust_so_kernel.Ext2.{ok, ok_inj}
use rust_so_kernel.Ext2.Device.{BlockDevice}
use rust_so_kernel.Ext2.Superblock.{Superblock}
use rust_so_kernel.Ext2.Volume.{read_block, block_vec, lba_of, sectors_per_block}
use rust_so_kernel.Ext2.Volume.Actions.{write_block, written}

-- Blocks are whole sectors, fewer than 256, and every block has an address of 32 bits.
pub record HasAddresses (device : BlockDevice) (sb : Superblock) : Type 0 where
  pub sectors : 1 ≤ sectors_per_block device sb
  pub whole : sb.block_size ≡ sectors_per_block device sb * 512
  pub addresses : sb.blocks_count * sectors_per_block device sb ≤ 4294967296

next_times : (b c s : ℕ) → b < c → b * s + s ≤ c * s
next_times b c s h = rw (sym (suc-mul b s)) (mul-le-mul_right s h)

mod_small : (x n : ℕ) → x < n → x % n ≡ x
mod_small x n h = grind arith

lt_of : (b c s : ℕ) → b * s + s ≤ c * s → c * s ≤ 4294967296 → 1 ≤ s → b * s < 4294967296
lt_of b c s h k l = omega arith

differ : (b c : ℕ) → b ≢ c → (b < c) ⊎ (c < b)
differ b c h = ground arith

-- A device write that the action reports as done.
pub written-ok :
    {S : Type 0} (r : Bool × S) {after : S} → written r ≡ (ok tt, after) → r ≡ (true, after)
written-ok (true, s) h = ap (λ p. (true, p.1)) h
written-ok (false, s) h = absurd (let h' = ap (λ p. p.0) h in cc)

module _ (device : BlockDevice) (sb : Superblock) (a : HasAddresses device sb) where
  lba_of-lt : (b : ℕ) → b < sb.blocks_count → lba_of device sb b ≡ b * sectors_per_block device sb
  lba_of-lt b h =
      let s = sectors_per_block device sb in
      let below = next_times b sb.blocks_count s h in
      let bound = a.addresses in
      let one = a.sectors in
      mod_small (b * s) 4294967296 (lt_of b sb.blocks_count s below bound one)

  lba_of-apart :
      (b c : ℕ)
      → b < sb.blocks_count
      → c < sb.blocks_count
      → b ≢ c
      → (lba_of device sb b + sectors_per_block device sb ≤ lba_of device sb c)
        ⊎ (lba_of device sb c + sectors_per_block device sb ≤ lba_of device sb b)
  lba_of-apart b c h k n =
      let s = sectors_per_block device sb in
      rw (lba_of-lt b h, lba_of-lt c k)
        (elim (differ b c n) [
          | inl lt ↦ inl (next_times b c s lt)
          | inr gt ↦ inr (next_times c b s gt)
        ])

  -- The number and the device write of a block write that is done.
  write_block-eq :
      (b : ℕ) (buf : List ℕ) (disk : device.Disk) {after : device.Disk}
      → write_block device sb b buf disk ≡ (ok tt, after)
      → (b < sb.blocks_count)
        × (device.write_sectors (lba_of device sb b) (sectors_per_block device sb) buf disk
            ≡ (true, after))
  unfolding write_block
  write_block-eq b buf disk {after} h = elim (Bool-cases (leb sb.blocks_count b)) [
    | inl past ↦ absurd (let h' = rw (past, write_block) at h in let e = ap (λ p. p.0) h' in cc)
    | inr inside ↦ (ground arith, written-ok _ (rw (inside, write_block) at h))
  ]

  pub block_vec-written :
      (b : ℕ) (buf : List ℕ) (disk : device.Disk) {after : device.Disk}
      → write_block device sb b buf disk ≡ (ok tt, after)
      → length buf ≡ sb.block_size
      → block_vec device sb b after ≡ ok buf
  unfolding block_vec read_block
  block_vec-written b buf disk {after} h len =
      let (inside, done) = write_block-eq b buf disk h in
      let within : leb sb.blocks_count b ≡ false = ground arith in
      rw (
        within,
        device.read-written _ _ buf (replicate sb.block_size 0) disk done (len ∙ a.whole)
            (length-replicate sb.block_size 0 ∙ a.whole) a.sectors,
        block_vec,
        read_block,
      )

  pub block_vec-other :
      (b c : ℕ) (buf : List ℕ) (disk : device.Disk) {after : device.Disk}
      → write_block device sb b buf disk ≡ (ok tt, after)
      → b ≢ c
      → block_vec device sb c after ≡ block_vec device sb c disk
  unfolding block_vec read_block
  block_vec-other b c buf disk {after} h n =
      let (inside, done) = write_block-eq b buf disk h in
      elim (Bool-cases (leb sb.blocks_count c)) [
        | inl past ↦ rw (past, block_vec, read_block)
        | inr within ↦
            let lt : c < sb.blocks_count = ground arith in
            rw (
              within,
              device.read-other _ _ _ _ buf (replicate sb.block_size 0) disk done a.sectors
                  a.sectors (lba_of-apart b c inside lt n),
              block_vec,
              read_block,
            )
      ]

  pub block_vec-length :
      (b : ℕ) (disk : device.Disk) {buf : List ℕ}
      → block_vec device sb b disk ≡ ok buf
      → length buf ≡ sb.block_size
  unfolding block_vec read_block
  block_vec-length b disk {buf} h = elim (Bool-cases (leb sb.blocks_count b)) [
    | inl past ↦ absurd (let h' = rw (past, block_vec, read_block) at h in cc)
    | inr within ↦
        elim (Option-cases (
          device.read_sectors (lba_of device sb b) (sectors_per_block device sb)
            (replicate sb.block_size 0) disk)) [
              | inl failed ↦ absurd (let h' = rw (within, failed, block_vec, read_block) at h in cc)
              | inr (out, e) ↦
                  let h' : ok out ≡ ok buf = rw (within, e, block_vec, read_block) at h in
                  ap length (sym (ok_inj h'))
                  ∙ device.read-length _ _ (replicate sb.block_size 0) disk e
                  ∙ length-replicate sb.block_size 0
            ]
  ]
