-- ===== src/Ext2/Device/Memory.antt =====
-- hal/src/block.rs: `MemDisk` is a block device.
use rust_so_kernel.Prelude.{
  ℕ, ◌+◌, ◌*◌, ◌≤◌, ◌≡◌, ◌⊎◌, inl, inr, sym, ◌∙◌, ap, some, true, false, List, length, take, part,
  patch, ltb, Bool-cases, take-all, length-patch, length-part, part-patch_self, patch-whole,
  length-take, part-patch_before, part-patch_behind, arith, some_inj,
}
use rust_so_kernel.Ext2.Device.{BlockDevice, MemDisk, sectors_of, mem_read, mem_write}

sectors_of-pos : (count : ℕ) → 1 ≤ count → sectors_of count ≡ count
unfolding sectors_of
sectors_of-pos count h = ground arith

-- The two tests of a write that succeeds, and the disk after it.
mem_write-eq :
    (lba count : ℕ) (src : List ℕ) (disk : MemDisk) {after : MemDisk}
    → mem_write lba count src disk ≡ (true, after)
    → 1 ≤ count
    → (count * 512 ≤ length src)
      × (lba * 512 + count * 512 ≤ length disk)
      × (patch disk (lba * 512) (take (count * 512) src) ≡ after)
unfolding mem_write
mem_write-eq lba count src disk {after} h k =
    let n = sectors_of-pos count k in
    elim (Bool-cases (ltb (length src) (count * 512))) [
      | inl short ↦ absurd (let h' = rw (n, short, mem_write) at h in cc)
      | inr long ↦ elim (Bool-cases (ltb (length disk) (lba * 512 + count * 512))) [
        | inl past ↦ absurd (let h' = rw (n, long, past, mem_write) at h in cc)
        | inr inside ↦
            let h' : (true, patch disk (lba * 512) (take (count * 512) src)) ≡ (true, after) =
              rw (n, long, inside, mem_write) at h in
            (ground arith, ground arith, ap (λ p. p.1) h')
      ]
    ]

-- A read of sectors that are all on the disk into a buffer of their size.
pub mem_read-ok :
    (lba count : ℕ) (buf : List ℕ) (disk : MemDisk)
    → 1 ≤ count
    → length buf ≡ count * 512
    → lba * 512 + count * 512 ≤ length disk
    → mem_read lba count buf disk ≡ some (part (lba * 512) (count * 512) disk)
unfolding mem_read
mem_read-ok lba count buf disk k len h =
    let n = sectors_of-pos count k in
    let long : ltb (length buf) (count * 512) ≡ false = ground arith in
    let inside : ltb (length disk) (lba * 512 + count * 512) ≡ false = ground arith in
    let whole : patch buf 0 (part (lba * 512) (count * 512) disk)
        ≡ part (lba * 512) (count * 512) disk =
      patch-whole buf (part (lba * 512) (count * 512) disk)
        (length-part (lba * 512) (count * 512) disk h ∙ sym len) in
    rw (n, long, inside, whole, mem_read)

pub mem_read-length :
    (lba count : ℕ) (buf : List ℕ) (disk : MemDisk) {out : List ℕ}
    → mem_read lba count buf disk ≡ some out
    → length out ≡ length buf
unfolding mem_read
mem_read-length lba count buf disk {out} h =
    elim (Bool-cases (ltb (length buf) (sectors_of count * 512))) [
      | inl short ↦ absurd (let h' = rw (short, mem_read) at h in cc)
      | inr long ↦ elim (Bool-cases (ltb (length disk) (lba * 512 + sectors_of count * 512))) [
        | inl past ↦ absurd (let h' = rw (long, past, mem_read) at h in cc)
        | inr inside ↦
            let h' : some (patch buf 0 (part (lba * 512) (sectors_of count * 512) disk))
                ≡ some out =
              rw (long, inside, mem_read) at h in
            ap length (sym (some_inj h')) ∙ length-patch buf 0 _
      ]
    ]

pub mem_read-written :
    (lba count : ℕ) (src buf : List ℕ) (disk : MemDisk) {after : MemDisk}
    → mem_write lba count src disk ≡ (true, after)
    → length src ≡ count * 512
    → length buf ≡ count * 512
    → 1 ≤ count
    → mem_read lba count buf after ≡ some src
mem_read-written lba count src buf disk {after} h len len' k =
    let (_, inside, is) = mem_write-eq lba count src disk h k in
    let all : take (count * 512) src ≡ src = take-all (count * 512) src (omega arith) in
    let is' : patch disk (lba * 512) src ≡ after = rw all at is in
    let size : length after ≡ length disk =
      ap length (sym is') ∙ length-patch disk (lba * 512) src in
    let same : part (lba * 512) (count * 512) after ≡ src =
      ap (part (lba * 512) (count * 512)) (sym is')
      ∙ ap (λ n. part (lba * 512) n (patch disk (lba * 512) src)) (sym len)
      ∙ part-patch_self (lba * 512) disk src (omega arith) in
    mem_read-ok lba count buf after k len' (omega arith) ∙ ap some same

pub mem_read-other :
    (lba count lba' count' : ℕ) (src buf : List ℕ) (disk : MemDisk) {after : MemDisk}
    → mem_write lba count src disk ≡ (true, after)
    → 1 ≤ count
    → 1 ≤ count'
    → (lba + count ≤ lba') ⊎ (lba' + count' ≤ lba)
    → mem_read lba' count' buf after ≡ mem_read lba' count' buf disk
unfolding mem_read
mem_read-other lba count lba' count' src buf disk {after} h k k' apart =
    let (long, inside, is) = mem_write-eq lba count src disk h k in
    let chunk = take (count * 512) src in
    let len : length chunk ≡ count * 512 = omega (arith, length-take (count * 512) src) in
    let size : length after ≡ length disk =
      ap length (sym is) ∙ length-patch disk (lba * 512) chunk in
    let same : part (lba' * 512) (count' * 512) (patch disk (lba * 512) chunk)
        ≡ part (lba' * 512) (count' * 512) disk =
      elim apart [
        | inl behind ↦
            part-patch_behind (lba * 512) (lba' * 512) (count' * 512) disk chunk (omega arith)
        | inr before ↦
            part-patch_before (lba * 512) (lba' * 512) (count' * 512) disk chunk (omega arith)
      ] in
    let same' : part (lba' * 512) (count' * 512) after ≡ part (lba' * 512) (count' * 512) disk =
      ap (part (lba' * 512) (count' * 512)) (sym is) ∙ same in
    rw (sectors_of-pos count' k', size, same', mem_read)

pub mem_write-failed :
    (lba count : ℕ) (src : List ℕ) (disk : MemDisk) {after : MemDisk}
    → mem_write lba count src disk ≡ (false, after)
    → after ≡ disk
unfolding mem_write
mem_write-failed lba count src disk {after} h =
    elim (Bool-cases (ltb (length src) (sectors_of count * 512))) [
      | inl short ↦ sym (ap (λ p. p.1) (rw (short, mem_write) at h))
      | inr long ↦ elim (Bool-cases (ltb (length disk) (lba * 512 + sectors_of count * 512))) [
        | inl past ↦ sym (ap (λ p. p.1) (rw (long, past, mem_write) at h))
        | inr inside ↦ absurd (let h' = rw (long, inside, mem_write) at h in cc)
      ]
    ]

abbrev pub mem_disk : BlockDevice
mem_disk = record {
  Disk = MemDisk;
  read_sectors = mem_read;
  write_sectors = mem_write;
  read-length = mem_read-length;
  read-written = mem_read-written;
  read-other = mem_read-other;
  failed_write = mem_write-failed;
}
