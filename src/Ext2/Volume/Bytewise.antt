-- ===== src/Ext2/Volume/Bytewise.antt =====
-- ext2/src/volume.rs: reading a range block by block is reading it byte by byte.
use rust_so_kernel.Prelude.{
  ℕ, zero, suc, ◌+◌, ◌-◌, ◌*◌, ◌/◌, ◌%◌, ◌≤◌, ◌<◌, ◌≡◌, min, refl, sym, ap, ◌∙◌, false, List, [],
  ◌∷◌, ◌++◌, ◌==◌, arith, inl, inr, Option, some, none, part, drop_nil, suc_add, append_nil,
  if_false, append_assoc,
}
use native.Mathlib.Nat.{
  div-add-mod, mul-add-div, mul-add-mod_self_left, div-eq_of_lt, mod-eq_of_lt, mod-lt,
}
use rust_so_kernel.Ext2.{Outcome, ok, slice-ok, ◌>>=◌, Outcome-cases}
use rust_so_kernel.Ext2.Device.{BlockDevice}
use rust_so_kernel.Ext2.Superblock.{Superblock}
use rust_so_kernel.Ext2.Inode.{RawInode}
use rust_so_kernel.Ext2.Volume.{block_vec, block_for_index}
use rust_so_kernel.Ext2.Volume.Reading.{piece_of, read_piece, read_loop, read_file_range}
use rust_so_kernel.Ext2.Volume.Blocks.{HasAddresses, block_vec-length}

module _ {ℓ} {A : Type ℓ} where
  part-split :
      (off n : ℕ) (buf : List A) → part off (suc n) buf ≡ part off 1 buf ++ part (off + 1) n buf
  part-split zero zero [] = refl
  part-split zero (suc n) [] = refl
  part-split zero n (b ∷ buf) = refl
  part-split (suc off) zero [] = refl
  part-split (suc off) (suc n) [] = rw (drop_nil {A = A} (suc off + 1))
  part-split (suc off) n (b ∷ buf) = rw (suc_add off 1) (part-split off n buf)

below : (pos bs : ℕ) → pos % bs + 2 ≤ bs → pos % bs + 1 < bs
below pos bs h = omega arith

-- The next byte of the same block.
next_byte :
    (pos bs : ℕ) → pos % bs + 2 ≤ bs → ((pos + 1) / bs ≡ pos / bs) × ((pos + 1) % bs ≡ pos % bs + 1)
next_byte pos bs h =
    let pos' : 0 < bs = omega arith in
    let whole : pos + 1 ≡ bs * (pos / bs) + (pos % bs + 1) = omega (arith, div-add-mod pos bs) in
    (
      ap (λ x. x / bs) whole
          ∙ mul-add-div pos' (pos / bs) (pos % bs + 1)
          ∙ rw (div-eq_of_lt (below pos bs h)) (omega arith),
      ap (λ x. x % bs) whole
          ∙ mul-add-mod_self_left bs (pos / bs) (pos % bs + 1)
          ∙ mod-eq_of_lt (below pos bs h),
    )

module _ (device : BlockDevice) (sb : Superblock) (a : HasAddresses device sb) where
  -- The specification: each byte is looked up by itself.
  unfoldable pub read_bytewise : RawInode → ℕ → ℕ → device.Disk → Outcome (List ℕ)
  read_bytewise raw pos zero disk = ok []
  read_bytewise raw pos (suc n) disk = do
    byte ← read_piece device sb raw pos 1 disk
    rest ← read_bytewise raw (pos + 1) n disk
    ok (byte ++ rest)

  piece_of-split :
      (found : Option ℕ) (off n : ℕ) (disk : device.Disk)
      → off + suc (suc n) ≤ sb.block_size
      → piece_of device sb found off (suc (suc n)) disk ≡ (
          piece_of device sb found off 1 disk >>= λ byte.
          piece_of device sb found (off + 1) (suc n) disk >>= λ rest. ok (byte ++ rest))
  piece_of-split none off n disk h = refl
  piece_of-split (some b) off n disk h = elim (Outcome-cases (block_vec device sb b disk)) [
    | inl (buf, e) ↦
        let len = block_vec-length device sb a b disk e in
        rw (
          e,
          slice-ok buf off (suc (suc n)) (omega arith),
          slice-ok buf off 1 (omega arith),
          slice-ok buf (off + 1) (suc n) (omega arith),
          part-split off (suc n) buf,
        )
    | inr (inl (x, e)) ↦ rw e
    | inr (inr e) ↦ rw e
  ]

  read_piece-bytewise :
      (raw : RawInode) (n pos : ℕ) (disk : device.Disk)
      → pos % sb.block_size + suc n ≤ sb.block_size
      → read_piece device sb raw pos (suc n) disk ≡ read_bytewise raw pos (suc n) disk
  unfolding read_bytewise read_piece
  read_piece-bytewise raw zero pos disk h =
      elim (Outcome-cases (read_piece device sb raw pos 1 disk)) [
        | inl (byte, e) ↦ rw (e, append_nil byte)
        | inr (inl (x, e)) ↦ rw e
        | inr (inr e) ↦ rw e
      ]
  read_piece-bytewise raw (suc n) pos disk h =
      let (block, off) = next_byte pos sb.block_size (omega arith) in
      rw (sym (read_piece-bytewise raw n (pos + 1) disk (omega arith))) (
        rw (read_piece, block, off)
          (elim (Outcome-cases
            (block_for_index device sb raw (pos / sb.block_size % 4294967296) disk)) [
              | inl (found, e) ↦ rw (e, piece_of-split found (pos % sb.block_size) n disk h)
              | inr (inl (x, e)) ↦ rw e
              | inr (inr e) ↦ rw e
            ]))

  read_bytewise-append :
      (raw : RawInode) (m n pos : ℕ) (disk : device.Disk)
      → read_bytewise raw pos (m + n) disk ≡ (
          read_bytewise raw pos m disk >>= λ xs.
          read_bytewise raw (pos + m) n disk >>= λ ys. ok (xs ++ ys))
  unfolding read_bytewise
  read_bytewise-append raw zero n pos disk =
      let sum : 0 + n ≡ n = omega arith in
      let sum' : pos + 0 ≡ pos = omega arith in
      rw (sum, sum')
        (elim (Outcome-cases (read_bytewise raw pos n disk)) [
          | inl (ys, e) ↦ rw e
          | inr (inl (x, e)) ↦ rw e
          | inr (inr e) ↦ rw e
        ])
  read_bytewise-append raw (suc m) n pos disk =
      let sum' : pos + suc m ≡ pos + 1 + m = omega arith in
      rw (suc_add m n, sum', read_bytewise-append raw m n (pos + 1) disk)
        (elim (Outcome-cases (read_piece device sb raw pos 1 disk)) [
          | inr (inl (x, e)) ↦ rw e
          | inr (inr e) ↦ rw e
          | inl (byte, e) ↦ rw e (elim (Outcome-cases (read_bytewise raw (pos + 1) m disk)) [
            | inr (inl (x, f)) ↦ rw f
            | inr (inr f) ↦ rw f
            | inl (xs, f) ↦ rw f (elim (Outcome-cases (read_bytewise raw (pos + 1 + m) n disk)) [
              | inr (inl (x, g)) ↦ rw g
              | inr (inr g) ↦ rw g
              | inl (ys, g) ↦ rw (g, append_assoc byte xs ys)
            ])
          ])
        ])

  read_loop-bytewise :
      (raw : RawInode) (fuel left pos : ℕ) (disk : device.Disk)
      → left ≤ fuel
      → 0 < sb.block_size
      → read_loop device sb fuel raw pos left disk ≡ read_bytewise raw pos left disk
  unfolding read_loop read_bytewise
  read_loop-bytewise raw zero zero pos disk h k = refl
  read_loop-bytewise raw zero (suc left) pos disk h k = absurd (omega arith)
  read_loop-bytewise raw (suc fuel) zero pos disk h k = refl
  read_loop-bytewise raw (suc fuel) (suc left) pos disk h k =
      let n = min (sb.block_size - pos % sb.block_size) (suc left) in
      let inside : pos % sb.block_size < sb.block_size = mod-lt pos k in
      let m = n - 1 in
      let is : n ≡ suc m = omega arith in
      let sum : suc m + (suc left - suc m) ≡ suc left = omega arith in
      let whole = read_bytewise-append raw (suc m) (suc left - suc m) pos disk in
      let piece = read_piece-bytewise raw m pos disk (omega arith) in
      let rest =
        read_loop-bytewise raw fuel (suc left - suc m) (pos + suc m) disk (omega arith) k in
      let turn : ℕ → Outcome (List ℕ) = λ x. read_piece device sb raw pos x disk >>= λ xs.
      read_loop device sb fuel raw (pos + x) (suc left - x) disk >>= λ ys. ok (xs ++ ys) in
      let not_zero : (suc left == 0) ≡ false = ground arith in
      rw not_zero
        (ap turn is ∙ rw (piece, rest) (sym whole) ∙ ap (λ x. read_bytewise raw pos x disk) sum)

  -- Reading a range of a file, block by block on fuel of its length, gives on every file and disk
  -- the bytes, the error or the panic of looking up each byte by itself.
  pub read_file_range-bytewise :
      (raw : RawInode) (offset len : ℕ) (disk : device.Disk)
      → read_file_range device sb raw offset len disk ≡ read_bytewise raw offset len disk
  unfolding read_file_range read_bytewise
  read_file_range-bytewise raw offset zero disk = refl
  read_file_range-bytewise raw offset (suc len) disk =
      let whole = a.whole in
      let one = a.sectors in
      let no_zero : (sb.block_size == 0) ≡ false = ground arith in
      let some_left : (suc len == 0) ≡ false = ground arith in
      if_false (suc len == 0) _ _ some_left
      ∙ if_false (sb.block_size == 0) _ _ no_zero
      ∙ read_loop-bytewise raw (suc len) (suc len) offset disk (omega arith) (omega arith)
