-- ===== src/Examples/Memory.antt =====
-- The buddy allocator at work on a region of four pages.
use mathlib.Core.Option
use rust_so_kernel.Prelude.{
  ℕ, zero, suc, ◌+◌, ◌-◌, ◌*◌, ◌/◌, ◌≡◌, ◌≤◌, refl, arith, List, [], ◌∷◌, Option, some, none,
  sum_below,
}
use rust_so_kernel.Prelude.Bits.{bit_test, bit_set, bit_clear, trailing_zeros}
use rust_so_kernel.Buddy.{
  BuddyAllocator, new_buddy, allocate, deallocate, add_region, region_loop, region_order,
  highest_bit, add_block, bitmap_set, bitmap_clear, bitmap_pos, bitmap_offsets, remove_from_head,
  split_larger, split_block, split_loop,
}
use rust_so_kernel.Buddy.Census.{inside, blocks_with, owned}
use rust_so_kernel.Buddy.Service.{IsSound, deallocate-IsSound}
use rust_so_kernel.Buddy.Region.{among, add_region-IsSound}
use rust_so_kernel.Buddy.History.{Reached, IsApart, Reached-IsApart, new_buddy-IsSound, in_use}

fresh : (x : ℕ) → owned new_buddy x + among 4096 ((20480 - 4096) / 4096 * 4096) x ≤ 1
unfolding among owned new_buddy blocks_with sum_below
fresh x = ground arith

-- Pages 1 to 4.
add_region-IsSound_example :
    (t : BuddyAllocator) × (add_region 4096 20480 new_buddy ≡ some t)
    × IsSound t
    × ((x : ℕ) → owned t x ≡ owned new_buddy x + among 4096 ((20480 - 4096) / 4096 * 4096) x)
add_region-IsSound_example =
    add_region-IsSound 4096 20480 new_buddy (1, refl) new_buddy-IsSound fresh

abbrev booted : BuddyAllocator
booted = (add_region-IsSound 4096 20480 new_buddy (1, refl) new_buddy-IsSound fresh).0

clear : (x : ℕ) → owned new_buddy x + inside 12 8192 x ≤ 1
unfolding inside owned new_buddy blocks_with sum_below
clear x = ground arith

-- Page 2 free, so that page 3 merges with it.
abbrev one_page : BuddyAllocator
one_page =
    (deallocate-IsSound 8192 12 new_buddy (omega arith) (omega arith) (2, refl) new_buddy-IsSound
      clear).0

one_page-IsSound : IsSound one_page
one_page-IsSound =
    (deallocate-IsSound 8192 12 new_buddy (omega arith) (omega arith) (2, refl) new_buddy-IsSound
      clear).2

next_clear : (x : ℕ) → owned one_page x + inside 12 12288 x ≤ 1
unfolding inside owned new_buddy blocks_with sum_below
next_clear x =
    let census =
      (deallocate-IsSound 8192 12 new_buddy (omega arith) (omega arith) (2, refl) new_buddy-IsSound
          clear).3
        x in
    ground (arith, census)

deallocate-IsSound_example :
    (t : BuddyAllocator) × (deallocate 12288 12 one_page ≡ some t)
    × IsSound t
    × ((x : ℕ) → owned t x ≡ owned one_page x + inside 12 12288 x)
deallocate-IsSound_example =
    deallocate-IsSound 12288 12 one_page (omega arith) (omega arith) (3, refl) one_page-IsSound
      next_clear

fresh_at_boot :
    (x : ℕ) → owned new_buddy x + in_use [] x + among 4096 ((20480 - 4096) / 4096 * 4096) x ≤ 1
unfolding in_use
fresh_at_boot x = omega (arith, fresh x)

booted-Reached : Reached booted []
booted-Reached =
    Reached.gains 4096 20480 new_buddy booted [] Reached.boots (1, refl) fresh_at_boot
      (add_region-IsSound 4096 20480 new_buddy (1, refl) new_buddy-IsSound fresh).1

Reached-IsApart_example : IsApart booted []
Reached-IsApart_example = Reached-IsApart booted [] booted-Reached

-- The pages left over at the ends are the last blocks listed; the buddies 8192 and 12288 are one block.
addresses : (n order : ℕ) → BuddyAllocator → List (Option ℕ)
addresses zero order s = []
addresses (suc n) order s = elim (allocate order s) [
  | none ↦ []
  | some (a, t) ↦ a ∷ addresses n order t
]

requests_in_turn :
    Option.map (addresses 5 12) (add_region 4096 20480 new_buddy)
    ≡ some (some 16384 ∷ some 4096 ∷ some 8192 ∷ some 12288 ∷ none ∷ [])
unfolding addresses add_region new_buddy region_loop region_order highest_bit trailing_zeros
    add_block bitmap_set bitmap_clear bitmap_pos bitmap_offsets bit_test bit_set bit_clear
    remove_from_head allocate split_larger split_block split_loop Option.bind
requests_in_turn = refl
