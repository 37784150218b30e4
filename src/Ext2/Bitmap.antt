-- ===== src/Ext2/Bitmap.antt =====
-- ext2/src/bitmap.rs: the bitmaps of a block group, low bit first in each byte.
pub mod Scan
pub mod Marks
use rust_so_kernel.Prelude.{
  ℕ, zero, suc, ◌+◌, ◌/◌, ◌%◌, Option, none, some, Bool, true, false, not, List, length, get_or,
  get_elem?, set, ltb, if◌then◌else◌,
}
use rust_so_kernel.Prelude.Bits.{bit_test, bit_set, bit_clear}
use rust_so_kernel.Ext2.{Outcome, ok, err, halted, ◌>>=◌}

-- `bitmap[byte] & mask != 0`
unfoldable pub bit_at : List ℕ → ℕ → Outcome Bool
bit_at bitmap bit = elim (get_elem? bitmap (bit / 8)) [
  | none ↦ halted
  | some byte ↦ ok (bit_test (bit % 8) byte)
]

-- The scan of `find_first_free_bit` from `bit`, with `n` bits left.
unfoldable pub scan_free : List ℕ → ℕ → ℕ → Outcome (Option ℕ)
scan_free bitmap bit zero = ok none
scan_free bitmap bit (suc n) =
    let rest = scan_free bitmap (suc bit) n in
    bit_at bitmap bit >>= λ used. if used then rest else ok (some bit)

unfoldable pub find_first_free_bit : List ℕ → ℕ → Outcome (Option ℕ)
find_first_free_bit bitmap valid_bits = scan_free bitmap 0 valid_bits

unfoldable pub set_bit : List ℕ → ℕ → Outcome (List ℕ)
set_bit bitmap bit =
    let byte = bit / 8 in
    if ltb byte (length bitmap)
    then ok (set bitmap byte (bit_set (bit % 8) (get_or bitmap byte 0)))
    else halted

unfoldable pub clear_bit : List ℕ → ℕ → Outcome (List ℕ)
clear_bit bitmap bit =
    let byte = bit / 8 in
    if ltb byte (length bitmap)
    then ok (set bitmap byte (bit_clear (bit % 8) (get_or bitmap byte 0)))
    else halted

unfoldable pub bit_is_set : List ℕ → ℕ → Bool
bit_is_set bitmap bit = elim (get_elem? bitmap (bit / 8)) [
  | none ↦ false
  | some byte ↦ bit_test (bit % 8) byte
]

unfoldable pub count_loop : List ℕ → ℕ → ℕ → Outcome ℕ
count_loop bitmap bit zero = ok 0
count_loop bitmap bit (suc n) =
    let rest = count_loop bitmap (suc bit) n in
    bit_at bitmap bit >>= λ used. rest >>= λ free. ok (if used then free else free + 1)

-- `free as u16`
unfoldable pub count_free_bits : List ℕ → ℕ → Outcome ℕ
count_free_bits bitmap valid_bits = count_loop bitmap 0 valid_bits >>= λ free. ok (free % 65536)
