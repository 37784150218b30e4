-- ===== src/Process/Scheduler/Pick.antt =====
-- What `pick`, `push_back` and the removals from a list do to the queues.
use rust_so_kernel.Prelude.{
  ℕ, zero, suc, ◌<◌, ◌≡◌, refl, ap, ◌∙◌, some, List, [], ◌∷◌, update, arith, All, All-append,
  ℕ_discrete, some_pair, sym, ==_refl, ne→==,
}
use rust_so_kernel.Process.{Process, ready}
use rust_so_kernel.Process.Scheduler.{pick, push_back, queue_index}

-- The highest queue that is not empty, its front, and the queues without it.
abbrev pub Picked : ℕ → (ℕ → List Process) → Process → (ℕ → List Process) → Type 0
Picked n queues p queues' =
    (k : ℕ) × (rest : List Process) × (k < n)
    × (queues k ≡ p ∷ rest)
    × (queues' ≡ update queues k rest)
    × ((j : ℕ) → k < j → j < n → queues j ≡ [])

pick_at :
    (n : ℕ) (queues : ℕ → List Process) (l : List Process)
    → queues n ≡ l
    → (p : Process) (queues' : ℕ → List Process) → pick (suc n) queues ≡ some (p, queues')
    → ((p : Process) (queues' : ℕ → List Process)
        → pick n queues ≡ some (p, queues')
        → Picked n queues p queues')
    → Picked (suc n) queues p queues'
unfolding pick
pick_at n queues [] e p queues' h ih =
    let (k, rest, lt, at, out, above) = ih p queues' (rw (e, pick) at h) in
    (
      k,
      rest,
      omega arith,
      at,
      out,
      λ j kj jn. elim (ℕ_discrete j n) [ yes q ↦ rw q e | no q ↦ above j kj (omega arith) ],
    )
pick_at n queues (x ∷ rest) e p queues' h ih =
    let h' = rw (e, pick) at h in
    let (same, out) = some_pair h' in
    (n, rest, omega arith, e ∙ ap (λ y. y ∷ rest) same, sym out, λ j kj jn. absurd (omega arith))

pub pick-Picked :
    (n : ℕ) (queues : ℕ → List Process) (p : Process) (queues' : ℕ → List Process)
    → pick n queues ≡ some (p, queues')
    → Picked n queues p queues'
unfolding pick
pick-Picked zero queues p queues' h = absurd (cc)
pick-Picked (suc n) queues p queues' h =
    pick_at n queues (queues n) refl p queues' h (pick-Picked n queues)

-- The property of a queue's own elements that the scheduler keeps.
abbrev pub IsQueued : ℕ → Process → Type 0
IsQueued j p = (p.state ≡ ready) × (queue_index p ≡ j)

abbrev pub Queued : (ℕ → List Process) → Type 0
Queued queues = (j : ℕ) → All (IsQueued j) (queues j)

pub push_back-Queued :
    (p : Process) (queues : ℕ → List Process)
    → p.state ≡ ready
    → Queued queues
    → Queued (push_back p queues)
unfolding push_back
push_back-Queued p queues e q j = elim (ℕ_discrete j (queue_index p)) [
  | yes same ↦
      rw (same, ==_refl (queue_index p))
        (All-append (IsQueued (queue_index p)) (queues (queue_index p)) (p ∷ []) (q _)
          ((e, refl), tt))
  | no other ↦ rw (ne→== j (queue_index p) other) (q j)
]

pub update-Queued :
    (k : ℕ) (rest : List Process) (queues : ℕ → List Process)
    → All (IsQueued k) rest
    → Queued queues
    → Queued (update queues k rest)
update-Queued k rest queues h q j = elim (ℕ_discrete j k) [
  | yes same ↦ rw (same, ==_refl k) h
  | no other ↦ rw (ne→== j k other) (q j)
]

pub pick-Queued :
    (n : ℕ) (queues : ℕ → List Process) (p : Process) (queues' : ℕ → List Process)
    → pick n queues ≡ some (p, queues')
    → Queued queues
    → Queued queues'
pick-Queued n queues p queues' h q =
    let (k, rest, lt, at, out, above) = pick-Picked n queues p queues' h in
    let front = rw at at (q k) in rw out (update-Queued k rest queues front.1 q)
