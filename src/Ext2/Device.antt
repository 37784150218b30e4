-- ===== src/Ext2/Device.antt =====
-- hal/src/block.rs: the block device under a file system, with what its two operations promise, and
-- the disk in memory. A transfer reads or writes whole sectors; the buffer of a read is the bytes
-- it held before.
pub mod Memory
use rust_so_kernel.Prelude.{
  ℕ, ◌+◌, ◌*◌, ◌/◌, ◌≤◌, ◌≡◌, ◌⊎◌, Option, none, some, Bool, true, false, List, length, take, part,
  patch, replicate, ltb, ◌==◌, if◌then◌else◌,
}

abbrev pub sector_size : ℕ
sector_size = 512

-- The operations return `none` and `false` for an error.
pub record BlockDevice : Type 1 where
  pub Disk : Type 0
  pub read_sectors : ℕ → ℕ → List ℕ → Disk → Option (List ℕ)
  pub write_sectors : ℕ → ℕ → List ℕ → Disk → Bool × Disk
  -- A read fills the buffer; a count of 0 means 256 sectors and is not used below.
  pub read-length :
      (lba count : ℕ) (buf : List ℕ) (disk : Disk) {out : List ℕ}
      → read_sectors lba count buf disk ≡ some out
      → length out ≡ length buf
  pub read-written :
      (lba count : ℕ) (src buf : List ℕ) (disk : Disk) {after : Disk}
      → write_sectors lba count src disk ≡ (true, after)
      → length src ≡ count * 512
      → length buf ≡ count * 512
      → 1 ≤ count
      → read_sectors lba count buf after ≡ some src
  pub read-other :
      (lba count lba' count' : ℕ) (src buf : List ℕ) (disk : Disk) {after : Disk}
      → write_sectors lba count src disk ≡ (true, after)
      → 1 ≤ count
      → 1 ≤ count'
      → (lba + count ≤ lba') ⊎ (lba' + count' ≤ lba)
      → read_sectors lba' count' buf after ≡ read_sectors lba' count' buf disk
  pub failed_write :
      (lba count : ℕ) (src : List ℕ) (disk : Disk) {after : Disk}
      → write_sectors lba count src disk ≡ (false, after)
      → after ≡ disk

-- The bytes of a `MemDisk`.
abbrev pub MemDisk : Type 0
MemDisk = List ℕ

unfoldable pub new_disk : ℕ → MemDisk
new_disk sectors = replicate (sectors * sector_size) 0

unfoldable pub sector_count : MemDisk → ℕ
sector_count disk = length disk / sector_size

unfoldable pub sectors_of : ℕ → ℕ
sectors_of count = if count == 0 then 256 else count

unfoldable pub mem_read : ℕ → ℕ → List ℕ → MemDisk → Option (List ℕ)
mem_read lba count buf disk =
    let n = sectors_of count in
    let start = lba * sector_size in
    let end = start + n * sector_size in
    if ltb (length buf) (n * sector_size)
    then none
    else if ltb (length disk) end
    then none
    else some (patch buf 0 (part start (n * sector_size) disk))

unfoldable pub mem_write : ℕ → ℕ → List ℕ → MemDisk → Bool × MemDisk
mem_write lba count buf disk =
    let n = sectors_of count in
    let start = lba * sector_size in
    let end = start + n * sector_size in
    if ltb (length buf) (n * sector_size)
    then (false, disk)
    else if ltb (length disk) end
    then (false, disk)
    else (true, patch disk start (take (n * sector_size) buf))
