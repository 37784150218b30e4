-- ===== src/Buddy.antt =====
-- kernel/src/allocator/buddy_allocator.rs: physical memory in blocks of powers of two. An address is
-- a number; the free list of an order is the list that the `next` fields of its blocks link, head
-- first; `none` stands for the CPU halted by a double free.
pub mod Census
pub mod Allocation
pub mod Merging
pub mod Bitmap
pub mod Backed
pub mod Totality
pub mod Service
pub mod Region
pub mod History
use rust_so_kernel.Prelude.{
  ℕ, zero, suc, ◌+◌, ◌-◌, ◌*◌, ◌/◌, ◌%◌, ◌^◌, Bool, true, false, Option, none, some, List, [], ◌∷◌,
  min, max, ◌==◌, ltb, leb, if◌then◌else◌, update, length, sum_below,
}
use mathlib.Core.Option
use rust_so_kernel.Prelude.Bits.{bit_test, bit_set, bit_clear, trailing_zeros}

abbrev pub min_order : ℕ
min_order = 12

abbrev pub max_order : ℕ
max_order = 28

abbrev pub num_orders : ℕ
num_orders = max_order - min_order + 1

-- 512 MiB.
abbrev pub max_phys_addr : ℕ
max_phys_addr = 512 * 1024 * 1024

-- Where the bits of each order start in the flat bitmap.
unfoldable pub bitmap_offsets : ℕ → ℕ
bitmap_offsets zero = 0
bitmap_offsets (suc i) = bitmap_offsets i + (max_phys_addr / 2 ^ (min_order + i) + 7) / 8

pub record BuddyAllocator : Type 0 where
  pub free_lists : ℕ → List ℕ
  pub bitmap : ℕ → ℕ
  pub total_memory : ℕ

unfoldable pub new_buddy : BuddyAllocator
new_buddy = record { free_lists = λ _. []; bitmap = λ _. 0; total_memory = 0 }

abbrev pub order_to_index : ℕ → ℕ
order_to_index order = order - min_order

-- The byte of a block's bit, and the bit's number in it.
unfoldable pub bitmap_pos : ℕ → ℕ → Option (ℕ × ℕ)
bitmap_pos order a =
    if leb max_phys_addr a
    then none
    else (let bit_index = a / 2 ^ order in
        some (bitmap_offsets (order_to_index order) + bit_index / 8, bit_index % 8))

unfoldable pub bitmap_set : ℕ → ℕ → BuddyAllocator → Option BuddyAllocator
bitmap_set order a s = elim (bitmap_pos order a) [
  | none ↦ some s
  | some (byte, bit) ↦
      if bit_test bit (s.bitmap byte)
      then none
      else some (record s { bitmap = update s.bitmap byte (bit_set bit (s.bitmap byte)) })
]

unfoldable pub bitmap_clear : ℕ → ℕ → BuddyAllocator → BuddyAllocator
bitmap_clear order a s = elim (bitmap_pos order a) [
  | none ↦ s
  | some (byte, bit) ↦ record s { bitmap = update s.bitmap byte (bit_clear bit (s.bitmap byte)) }
]

unfoldable pub is_free : ℕ → ℕ → BuddyAllocator → Bool
is_free order a s = elim (bitmap_pos order a) [
  | none ↦ false
  | some (byte, bit) ↦ bit_test bit (s.bitmap byte)
]

abbrev pub list_of : ℕ → BuddyAllocator → List ℕ
list_of order s = s.free_lists (order_to_index order)

-- `free_lists[order_to_index(order)] = …`
abbrev pub with_list : ℕ → List ℕ → BuddyAllocator → BuddyAllocator
with_list order blocks s = record s {
  free_lists = update s.free_lists (order_to_index order) blocks;
}

unfoldable pub add_block : ℕ → ℕ → BuddyAllocator → Option BuddyAllocator
add_block order a s = bitmap_set order a (with_list order (a ∷ list_of order s) s)

-- `addr` heads the list and `next` are the blocks its `next` field links.
unfoldable pub remove_from_head : ℕ → ℕ → List ℕ → BuddyAllocator → BuddyAllocator
remove_from_head order a next s = bitmap_clear order a (with_list order next s)

-- The scan behind the head, which gives up after as many blocks as the first argument.
unfoldable pub unlink : ℕ → ℕ → List ℕ → Option (List ℕ)
unlink zero a blocks = none
unlink (suc n) a [] = none
unlink (suc n) a (b ∷ blocks) =
    if b == a then some blocks else Option.map (◌∷◌ b) (unlink n a blocks)

unfoldable pub remove_arbitrary_block : ℕ → ℕ → BuddyAllocator → Bool × BuddyAllocator
remove_arbitrary_block order a s = elim (list_of order s) [
  | [] ↦ (false, bitmap_clear order a s)
  | head ∷ blocks ↦
      if head == a
      then (true, remove_from_head order a blocks s)
      else (elim (unlink 4096 a blocks) [
        | none ↦ (false, bitmap_clear order a s)
        | some left ↦ (true, bitmap_clear order a (with_list order (head ∷ left) s))
      ])
]

-- `n` halvings above `to_order`.
unfoldable pub split_loop : ℕ → ℕ → ℕ → BuddyAllocator → Option BuddyAllocator
split_loop zero to_order a s = some s
split_loop (suc n) to_order a s =
    Option.bind (add_block (to_order + n) (a + 2 ^ (to_order + n)) s) (split_loop n to_order a)

unfoldable pub split_block : ℕ → ℕ → ℕ → BuddyAllocator → Option BuddyAllocator
split_block from_order a to_order s = split_loop (from_order - to_order) to_order a s

-- `addr ^ (1 << order)`, which flips one bit.
unfoldable pub buddy_of : ℕ → ℕ → ℕ
buddy_of a order = if a / 2 ^ order % 2 == 1 then a - 2 ^ order else a + 2 ^ order

-- The `n` orders from `larger_order` up.
unfoldable pub split_larger : ℕ → ℕ → ℕ → BuddyAllocator → Option (Option ℕ × BuddyAllocator)
split_larger zero larger_order order s = some (none, s)
split_larger (suc n) larger_order order s = elim (list_of larger_order s) [
  | [] ↦ split_larger n (suc larger_order) order s
  | a ∷ next ↦
      Option.map (λ t. (some a, t))
        (split_block larger_order a order (remove_from_head larger_order a next s))
]

unfoldable pub allocate : ℕ → BuddyAllocator → Option (Option ℕ × BuddyAllocator)
allocate order s = elim (list_of order s) [
  | a ∷ next ↦ some (some a, remove_from_head order a next s)
  | [] ↦ split_larger (max_order - order) (suc order) order s
]

-- At most `n` merges with the buddy; what results is still to be added.
unfoldable pub coalesce : ℕ → ℕ → ℕ → BuddyAllocator → ℕ × ℕ × BuddyAllocator
coalesce zero order a s = (order, a, s)
coalesce (suc n) order a s = elim (is_free order (buddy_of a order) s) [
  | false ↦ (order, a, s)
  | true ↦
      let (found, t) = remove_arbitrary_block order (buddy_of a order) s in
      (elim found [
        | false ↦ (order, a, t)
        | true ↦ coalesce n (suc order) (min a (buddy_of a order)) t
      ])
]

unfoldable pub deallocate : ℕ → ℕ → BuddyAllocator → Option BuddyAllocator
deallocate a order s =
    let (merged_order, merged, t) = coalesce (max_order - order) order a s in
    add_block merged_order merged t

-- `63 - x.leading_zeros()` on a word of `w` bits that is not 0.
unfoldable pub highest_bit : ℕ → ℕ → ℕ
highest_bit zero x = 0
highest_bit (suc w) x = let rest = suc (highest_bit w (x / 2)) in if x / 2 == 0 then 0 else rest

-- The order of the next block of a region with so much remaining.
unfoldable pub region_order : ℕ → ℕ → ℕ
region_order current_addr remaining =
    max (min (min (trailing_zeros 64 current_addr) (highest_bit 64 remaining)) max_order) min_order

-- The loop stops when less than a page remains; each turn uses up a page or more.
unfoldable pub region_loop : ℕ → ℕ → ℕ → BuddyAllocator → Option BuddyAllocator
region_loop zero current_addr remaining s = some s
region_loop (suc n) current_addr remaining s = elim (ltb remaining (2 ^ min_order)) [
  | true ↦ some s
  | false ↦
      let order = region_order current_addr remaining in
      Option.bind (add_block order current_addr s)
        (region_loop n (current_addr + 2 ^ order) (remaining - 2 ^ order))
]

unfoldable pub add_region : ℕ → ℕ → BuddyAllocator → Option BuddyAllocator
add_region start end s =
    let remaining = end - start in
    let region_size = (end + 2 ^ 64 - start) % 2 ^ 64 in
    region_loop (suc (remaining / 2 ^ min_order)) start remaining
      (record s { total_memory = (s.total_memory + region_size) % 2 ^ 64 })

unfoldable pub free_bytes : BuddyAllocator → ℕ
free_bytes s = sum_below num_orders (λ i. length (s.free_lists i) * 2 ^ (min_order + i))
