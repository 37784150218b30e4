-- ===== src/Buddy/Region.antt =====
-- `add_region`: the blocks it cuts a region into cover the whole pages of the region, each once.
use native.Mathlib.Nat.{two-pow-succ, pow-le-pow_right, le_trans}
use mathlib.Core.Option
use rust_so_kernel.Prelude.{
  ℕ, zero, suc, ◌+◌, ◌-◌, ◌*◌, ◌/◌, ◌%◌, ◌^◌, ◌≡◌, ◌≤◌, ◌<◌, refl, arith, ◌&&◌, Option, some, ap,
  inl, inr, Bool-cases, ◌∙◌, ◌==◌, leb, ltb, ltb→lt, if◌then◌else◌,
}
use rust_so_kernel.Prelude.Bits.{trailing_zeros, pow_positive, pow_add}
use rust_so_kernel.Buddy.{
  BuddyAllocator, highest_bit, is_free, region_order, region_loop, add_region,
}
use rust_so_kernel.Buddy.Census.{inside, owned, owned-add_block}
use rust_so_kernel.Buddy.Merging.{IsAligned}
use rust_so_kernel.Buddy.Totality.{inside_self, add_block-IsAdded}
use rust_so_kernel.Buddy.Service.{IsSound}

-- 1 for an address among the `len` from `start` on, and else 0.
unfoldable pub among : ℕ → ℕ → ℕ → ℕ
among start len x = if leb start x && ltb x (start + len) then 1 else 0

among-add : (start m n x : ℕ) → among start (m + n) x ≡ among start m x + among (start + m) n x
unfolding among
among-add start m n x = ground arith

among-inside : (order a x : ℕ) → among a (2 ^ order) x ≡ inside order a x
unfolding among inside
among-inside order a x = refl

doubled : (q p r a : ℕ) → r ≡ p + p → a % 2 ≡ 0 → a / 2 ≡ q * p → a ≡ q * r
doubled q p r a e two half = rw e (omega (arith, two, half))

halved : (q p r a : ℕ) → r ≡ p + p → a ≡ q * r → (a / 2 ≡ q * p) × (a % 2 ≡ 0)
halved q p r a e h =
    (omega (arith, ap (λ (m : ℕ). q * m) e, h), omega (arith, ap (λ (m : ℕ). q * m) e, h))

zeros-IsAligned : (w k a : ℕ) → k ≤ trailing_zeros w a → IsAligned k a
unfolding trailing_zeros
zeros-IsAligned w zero a h = (a, omega arith)
zeros-IsAligned zero (suc k) a h = absurd (omega arith)
zeros-IsAligned (suc w) (suc k) a h = elim (Bool-cases (a % 2 == 1)) [
  | inl odd ↦ absurd (let h' = rw (trailing_zeros, odd) at h in omega arith)
  | inr even ↦
      let h' = rw (trailing_zeros, even) at h in
      let (q, e) = zeros-IsAligned w k (a / 2) (omega arith) in
      let two : a % 2 ≡ 0 = ground arith in
      (q, doubled q (2 ^ k) (2 ^ suc k) a (two-pow-succ k) two e)
]

zeros_of_aligned : (w k a : ℕ) → k ≤ w → IsAligned k a → k ≤ trailing_zeros w a
unfolding trailing_zeros
zeros_of_aligned w zero a h fits = omega arith
zeros_of_aligned zero (suc k) a h fits = absurd (omega arith)
zeros_of_aligned (suc w) (suc k) a h (q, e) =
    let whole = halved q (2 ^ k) (2 ^ suc k) a (two-pow-succ k) e in
    ground (arith, zeros_of_aligned w k (a / 2) (omega arith) (q, whole.0), whole.1)

highest_le : (w x : ℕ) → 0 < x → 2 ^ highest_bit w x ≤ x
unfolding highest_bit
highest_le zero x h = omega arith
highest_le (suc w) x h = elim (Bool-cases (x / 2 == 0)) [
  | inl small ↦ rw (highest_bit, small) (omega arith)
  | inr large ↦
      let more : 0 < x / 2 = ground arith in
      let half = highest_le w (x / 2) more in
      rw (highest_bit, large) (omega (arith, half, two-pow-succ (highest_bit w (x / 2))))
]

le_highest : (w k x : ℕ) → k ≤ w → 2 ^ k ≤ x → k ≤ highest_bit w x
unfolding highest_bit
le_highest w zero x h le = omega arith
le_highest zero (suc k) x h le = absurd (omega arith)
le_highest (suc w) (suc k) x h le =
    let half : 2 ^ k ≤ x / 2 = omega (arith, two-pow-succ k) in
    ground (arith, le_highest w k (x / 2) (omega arith) half, half, pow_positive k)

-- The order of the next block: one of the lists', where the block may start, within what remains.
record IsFitting (c r o : ℕ) : Type 0 where
  low : 12 ≤ o
  high : o ≤ 28
  aligned : IsAligned o c
  within : 2 ^ o ≤ r

region_order-IsFitting : (c r : ℕ) → IsAligned 12 c → 4096 ≤ r → IsFitting c r (region_order c r)
unfolding region_order
region_order-IsFitting c r fits h =
    let zeros = zeros_of_aligned 64 12 c (omega arith) fits in
    let high = le_highest 64 12 r (omega arith) h in
    let top : region_order c r ≤ highest_bit 64 r = omega (arith, zeros, high) in
    record {
      low = omega arith;
      high = omega arith;
      aligned = zeros-IsAligned 64 (region_order c r) c (omega (arith, zeros, high));
      within = le_trans (pow-le-pow_right (omega arith) top) (highest_le 64 r (omega arith));
    }

-- A block of an order from 12 up is a whole number of pages.
pages : (o : ℕ) → 12 ≤ o → (m : ℕ) × (2 ^ o ≡ m * 4096) × (0 < m)
pages o h =
    let back : o ≡ o - 12 + 12 = omega arith in
    (2 ^ (o - 12), ap (λ (k : ℕ). 2 ^ k) back ∙ pow_add (o - 12) 12, pow_positive (o - 12))

-- The region added: the allocator is sound and holds the pages besides what it held.
abbrev Added : BuddyAllocator → ℕ → ℕ → Option BuddyAllocator → Type 0
Added s c r o =
    (t : BuddyAllocator) × (o ≡ some t)
    × IsSound t
    × ((x : ℕ) → owned t x ≡ owned s x + among c (r / 4096 * 4096) x)

fewer_pages :
    (r m p : ℕ)
    → p ≡ m * 4096
    → p ≤ r
    → 0 < m
    → (r / 4096 * 4096 ≡ p + (r - p) / 4096 * 4096) × ((r - p) / 4096 < r / 4096)
fewer_pages r m p e h pos = (omega arith, omega arith)

among_none : (c n x : ℕ) → n ≡ 0 → among c n x ≡ 0
unfolding among
among_none c n x h = ground arith

no_page : (r : ℕ) → r < 4096 → r / 4096 * 4096 ≡ 0
no_page r h = omega arith

next_page : (c p m : ℕ) → IsAligned 12 c → p ≡ m * 4096 → IsAligned 12 (c + p)
next_page c p m (q, e) h = (q + m, omega (arith, e, h))

region_loop-Added :
    (n c r : ℕ) (s : BuddyAllocator)
    → IsAligned 12 c
    → r / 4096 < n
    → IsSound s
    → ((x : ℕ) → owned s x + among c (r / 4096 * 4096) x ≤ 1)
    → Added s c r (region_loop n c r s)
unfolding region_loop Option.bind
region_loop-Added zero c r s fits h sound apart = absurd (omega arith)
region_loop-Added (suc n) c r s fits h sound apart = elim (Bool-cases (ltb r 4096)) [
  | inl small ↦ (
    s,
    rw (region_loop, small) refl,
    sound,
    λ x. omega (arith, among_none c (r / 4096 * 4096) x (no_page r (ltb→lt r 4096 small))),
  )
  | inr large ↦
      let o = region_order c r in
      let f = region_order-IsFitting c r fits (ground arith) in
      let (m, e, pos) = pages o f.low in
      let left = fewer_pages r m (2 ^ o) e f.within pos in
      let whole = λ (x : ℕ).
        ap (λ (k : ℕ). among c k x) left.0
        ∙ among-add c (2 ^ o) ((r - 2 ^ o) / 4096 * 4096) x
        ∙ ap (λ (k : ℕ). k + among (c + 2 ^ o) ((r - 2 ^ o) / 4096 * 4096) x)
            (among-inside o c x) in
      let clear : owned s c ≡ 0 = omega (arith, apart c, whole c, inside_self o c) in
      let (u, added, backed) = add_block-IsAdded o c s f.low f.high f.aligned sound.backed clear in
      let census = λ (x : ℕ). owned-add_block o c s u x f.low f.high added in
      let sound' : IsSound u = record {
        backed = backed;
        disjoint = λ x. omega (arith, census x, apart x, whole x);
      } in
      let (t, done, end, total) =
        region_loop-Added n (c + 2 ^ o) (r - 2 ^ o) u (next_page c (2 ^ o) m fits e)
          (omega (arith, left.1, h)) sound' (λ x. omega (arith, census x, apart x, whole x)) in
      (t, rw (region_loop, large, added) done, end, λ x. omega (arith, total x, census x, whole x))
]

with_total : (s : BuddyAllocator) (n : ℕ) → IsSound s → IsSound (record s { total_memory = n })
unfolding owned is_free
with_total s n h = record {
  backed = record { aligned = h.backed.aligned; backed = h.backed.backed };
  disjoint = h.disjoint;
}

-- To a sound allocator with none of its addresses, a region that starts at a page boundary is added
-- without a halt, and the loop ends with less than a page to go: the allocator stays sound, the
-- addresses of the region's whole pages are each in one more free block, and all others in as many.
pub add_region-IsSound :
    (start end : ℕ) (s : BuddyAllocator)
    → IsAligned 12 start
    → IsSound s
    → ((x : ℕ) → owned s x + among start ((end - start) / 4096 * 4096) x ≤ 1)
    → (t : BuddyAllocator) × (add_region start end s ≡ some t)
      × IsSound t
      × ((x : ℕ) → owned t x ≡ owned s x + among start ((end - start) / 4096 * 4096) x)
unfolding add_region owned
add_region-IsSound start end s fits h apart =
    let total = (s.total_memory + (end + 2 ^ 64 - start) % 2 ^ 64) % 2 ^ 64 in
    region_loop-Added (suc ((end - start) / 4096)) start (end - start)
      (record s { total_memory = total }) fits (omega arith) (with_total s total h) apart
