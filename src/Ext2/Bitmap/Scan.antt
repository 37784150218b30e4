-- ===== src/Ext2/Bitmap/Scan.antt =====
-- ext2/src/bitmap.rs: the scan for a free bit and the count of the free bits.
use rust_so_kernel.Prelude.{
  ℕ, zero, suc, ◌+◌, ◌*◌, ◌%◌, ◌<◌, ◌≤◌, ◌≡◌, refl, Option, none, some, Bool, true, false, List,
  length, ◌==◌, if◌then◌else◌, Bool-cases, inl, inr, arith, ◌⊎◌,
}
use rust_so_kernel.Ext2.{ok}
use rust_so_kernel.Ext2.Bitmap.{
  bit_is_set, scan_free, find_first_free_bit, count_loop, count_free_bits,
}
use rust_so_kernel.Ext2.Bitmap.Marks.{bit_at-ok, Marked}

-- What a scan of the bits from `start` up to `limit` finds.
pub data FreeBit (bitmap : List ℕ) (start limit : ℕ) : Option ℕ → Type 0 where
  lowest :
      (bit : ℕ)
      → start ≤ bit
      → bit < limit
      → bit_is_set bitmap bit ≡ false
      → ((j : ℕ) → start ≤ j → j < bit → bit_is_set bitmap j ≡ true)
      → FreeBit bitmap start limit (some bit)
  full :
      ((j : ℕ) → start ≤ j → j < limit → bit_is_set bitmap j ≡ true)
      → FreeBit bitmap start limit none

-- One more used bit before the scan.
step_over :
    (bitmap : List ℕ) (start limit : ℕ) (r : Option ℕ)
    → bit_is_set bitmap start ≡ true
    → FreeBit bitmap (suc start) limit r
    → FreeBit bitmap start limit r
step_over bitmap start limit _ e (lowest bit h k free used) =
    lowest bit (omega arith) k free (λ j a b. elim (Bool-cases (j == start)) [
      | inl same ↦ let eq : j ≡ start = ground arith in rw eq e
      | inr other ↦ used j (ground arith) b
    ])
step_over bitmap start limit _ e (full used) = full (λ j a b. elim (Bool-cases (j == start)) [
  | inl same ↦ let eq : j ≡ start = ground arith in rw eq e
  | inr other ↦ used j (ground arith) b
])

scan_free-FreeBit :
    (bitmap : List ℕ) (n bit : ℕ)
    → bit + n ≤ length bitmap * 8
    → (r : Option ℕ) × (scan_free bitmap bit n ≡ ok r) × FreeBit bitmap bit (bit + n) r
unfolding scan_free
scan_free-FreeBit bitmap zero bit h = (none, refl, full (λ j a b. absurd (omega arith)))
scan_free-FreeBit bitmap (suc n) bit h = elim (Bool-cases (bit_is_set bitmap bit)) [
  | inl used ↦
      let (r, runs, free) = scan_free-FreeBit bitmap n (suc bit) (omega arith) in
      let limit : suc bit + n ≡ bit + suc n = omega arith in
      (
        r,
        rw (bit_at-ok bitmap bit (omega arith), used) runs,
        step_over bitmap bit (bit + suc n) r used (rw limit at free),
      )
  | inr free ↦ (
    some bit,
    rw (bit_at-ok bitmap bit (omega arith), free),
    lowest bit (omega arith) (omega arith) free (λ j a b. absurd (omega arith)),
  )
]

-- On a bitmap with room for `valid_bits` bits the scan of find_first_free_bit returns; it finds the
-- lowest of them that is clear, and none only when all of them are set.
pub find_first_free_bit_lowest :
    (bitmap : List ℕ) (valid_bits : ℕ)
    → valid_bits ≤ length bitmap * 8
    → (r : Option ℕ) × (find_first_free_bit bitmap valid_bits ≡ ok r)
      × FreeBit bitmap 0 valid_bits r
unfolding find_first_free_bit
find_first_free_bit_lowest bitmap valid_bits h =
    let (r, runs, free) = scan_free-FreeBit bitmap valid_bits 0 (omega arith) in
    let limit : 0 + valid_bits ≡ valid_bits = omega arith in (r, runs, rw limit at free)

-- The number of clear bits among the `n` from `bit`.
abbrev pub clear_bits : List ℕ → ℕ → ℕ → ℕ
clear_bits bitmap bit zero = 0
clear_bits bitmap bit (suc n) =
    (if bit_is_set bitmap bit then 0 else 1) + clear_bits bitmap (suc bit) n

count_loop-clear_bits :
    (bitmap : List ℕ) (n bit : ℕ)
    → bit + n ≤ length bitmap * 8
    → count_loop bitmap bit n ≡ ok (clear_bits bitmap bit n)
unfolding count_loop
count_loop-clear_bits bitmap zero bit h = refl
count_loop-clear_bits bitmap (suc n) bit h = elim (Bool-cases (bit_is_set bitmap bit)) [
  | inl used ↦
      let sum : 0 + clear_bits bitmap (suc bit) n ≡ clear_bits bitmap (suc bit) n = omega arith in
      rw (
        bit_at-ok bitmap bit (omega arith),
        count_loop-clear_bits bitmap n (suc bit) (omega arith),
        used,
        sum,
      )
  | inr free ↦
      let sum : 1 + clear_bits bitmap (suc bit) n ≡ clear_bits bitmap (suc bit) n + 1 =
        omega arith in
      rw (
        bit_at-ok bitmap bit (omega arith),
        count_loop-clear_bits bitmap n (suc bit) (omega arith),
        free,
        sum,
      )
]

pub count_free_bits-clear_bits :
    (bitmap : List ℕ) (valid_bits : ℕ)
    → valid_bits ≤ length bitmap * 8
    → count_free_bits bitmap valid_bits ≡ ok (clear_bits bitmap 0 valid_bits % 65536)
unfolding count_free_bits
count_free_bits-clear_bits bitmap valid_bits h =
    rw (count_loop-clear_bits bitmap valid_bits 0 (omega arith))

-- The bits of a marked bitmap that are not the marked one count as before.
clear_bits-other :
    (bitmap after : List ℕ) (bit : ℕ) (value : Bool) (n start : ℕ)
    → Marked bitmap bit value after
    → (bit < start) ⊎ (start + n ≤ bit)
    → clear_bits after start n ≡ clear_bits bitmap start n
clear_bits-other bitmap after bit value zero start m h = refl
clear_bits-other bitmap after bit value (suc n) start m h =
    let apart : (start == bit) ≡ false = ground arith in
    let same : bit_is_set after start ≡ bit_is_set bitmap start = rw (m.bits start, apart) in
    let later : (bit < suc start) ⊎ (suc start + n ≤ bit) = ground arith in
    rw (same, clear_bits-other bitmap after bit value n (suc start) m later)

-- Setting a clear bit takes one off the count.
pub clear_bits-set :
    (bitmap after : List ℕ) (bit n start : ℕ)
    → Marked bitmap bit true after
    → start ≤ bit
    → bit < start + n
    → bit_is_set bitmap bit ≡ false
    → clear_bits after start n + 1 ≡ clear_bits bitmap start n
clear_bits-set bitmap after bit zero start m h k free = absurd (omega arith)
clear_bits-set bitmap after bit (suc n) start m h k free = elim (Bool-cases (start == bit)) [
  | inl e ↦
      let at : start ≡ bit = ground arith in
      let here : bit_is_set after start ≡ true = rw (m.bits start, e) in
      let before : bit_is_set bitmap start ≡ false = rw at free in
      let rest = clear_bits-other bitmap after bit true n (suc start) m (inl (omega arith)) in
      rw (here, before, rest) (omega arith)
  | inr e ↦
      let same : bit_is_set after start ≡ bit_is_set bitmap start = rw (m.bits start, e) in
      let rest =
        clear_bits-set bitmap after bit n (suc start) m (ground arith) (omega arith) free in
      rw same (omega (arith, rest))
]
