-- ===== src/Examples/Descriptors.antt =====
-- The table of open files at concrete inputs.
use rust_so_kernel.Prelude.{ℕ, ◌+◌, ◌-◌, ◌≡◌, refl, Option, none, some, if◌then◌else◌, ltb, ◌^◌}
use rust_so_kernel.Pipe.Ends.{FileResult, ok, err, invalid_argument}
use rust_so_kernel.Files.{get, dup, free_from, compute_seek, checked_add, seek_base}
use rust_so_kernel.Files.Table.{Placed, dup-Placed}

-- Descriptors 0 to 3 are open.
abbrev four_open : ℕ → Option ℕ
four_open = λ j. if ltb j 4 then some (100 + j) else none

abbrev dup_number : ℕ → Option ℕ
dup_number h = some h

abbrev close_number : ℕ → FileResult Unit
close_number h = ok tt

third_open : get 3 four_open ≡ ok 103
unfolding get
third_open = refl

third_duplicated : (dup dup_number close_number 3 0 four_open).0 ≡ ok 4
unfolding dup get free_from
third_duplicated = refl

dup-Placed_example :
    Placed 103 four_open 10
      (dup dup_number close_number 3 10 four_open).0
      (dup dup_number close_number 3 10 four_open).1
dup-Placed_example = dup-Placed dup_number close_number 3 10 four_open 103 103 third_open refl

-- Two bytes back from the end, and before the beginning.
seek_back : compute_seek 0 10 (2 ^ 64 - 2) 2 ≡ ok 8
unfolding compute_seek checked_add seek_base
seek_back = refl

seek_too_far : compute_seek 0 10 (2 ^ 64 - 20) 2 ≡ err invalid_argument
unfolding compute_seek checked_add seek_base
seek_too_far = refl
