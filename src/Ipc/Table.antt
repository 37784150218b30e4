-- ===== src/Ipc/Table.antt =====
-- The allocation of channels: the scan from `next_id` finds a free slot whenever there is one.
use rust_so_kernel.Prelude.{
  ℕ, zero, suc, ◌+◌, ◌-◌, ◌%◌, ◌≡◌, ◌≢◌, ◌≤◌, ◌<◌, refl, arith, Option, none, some, Option-cases,
  inl, inr, update, ℕ_discrete,
}
use rust_so_kernel.Ipc.{Channel, ChannelTable, new_channel, alloc_from, alloc}

-- The ids that are handed out: 0 is none.
pub record IsId (id : ℕ) : Type 0 where
  pub above : 0 < id
  pub below : id < 64

-- What an allocation returns and leaves.
pub data Allocated (slots : ℕ → Option Channel) : Option ℕ → ChannelTable → Type 0 where
  full :
      (t' : ChannelTable)
      → t'.slots ≡ slots
      → ((id : ℕ) → IsId id → slots id ≢ none)
      → Allocated slots none t'
  slot :
      (id : ℕ) (t' : ChannelTable)
      → IsId id
      → slots id ≡ none
      → t'.slots ≡ update slots id (some new_channel)
      → Allocated slots (some id) t'

-- The steps from one id to another, in the order of the scan.
abbrev ahead : ℕ → ℕ → ℕ
ahead from id = (id + 63 - from) % 63

-- The scan of `n` slots, when those it does not come to are taken.
alloc_from-Allocated :
    (n : ℕ) (t : ChannelTable)
    → IsId t.next_id
    → ((id : ℕ) → IsId id → n ≤ ahead t.next_id id → t.slots id ≢ none)
    → Allocated t.slots (alloc_from n t).0 (alloc_from n t).1 × IsId (alloc_from n t).1.next_id
unfolding alloc_from
alloc_from-Allocated zero t here taken = (
  Allocated.full t refl (λ id i. let a = i.above in let b = i.below in taken id i (omega arith)),
  here,
)
alloc_from-Allocated (suc n) t here taken =
    let above = here.above in
    let below = here.below in
    let next : IsId (t.next_id % 63 + 1) = record { above = omega arith; below = omega arith } in
    elim (Option-cases (t.slots t.next_id)) [
      | inl free ↦ rw (alloc_from, free) (Allocated.slot t.next_id _ here free refl, next)
      | inr (c, used) ↦
          let t' : ChannelTable = record t { next_id = t.next_id % 63 + 1 } in
          rw (alloc_from, used)
            (alloc_from-Allocated n t' next (λ id i le free. elim (ℕ_discrete id t.next_id) [
              | yes e ↦ absurd (let h = used in let h' = rw e at free in cc)
              | no ne ↦ let a = i.above in let b = i.below in taken id i (omega arith) free
            ]))
    ]

-- An allocation from a table whose `next_id` is an id returns an id that was free and puts a new
-- channel there, leaving the other slots as they are; it returns none, and changes no slot, only
-- when the slots 1 to 63 are all taken. `next_id` is an id again.
pub alloc-Allocated :
    (t : ChannelTable)
    → IsId t.next_id
    → Allocated t.slots (alloc t).0 (alloc t).1 × IsId (alloc t).1.next_id
unfolding alloc
alloc-Allocated t here = alloc_from-Allocated 64 t here (λ id i le. absurd (omega arith))
