-- ===== src/Process/Scheduler/Settled.antt =====
-- What a pass of `age_processes` does: it ends within the turns counted, keeps the queues in order,
-- and leaves no ready process below its base priority, the idle process apart.
use rust_so_kernel.Prelude.{
  ℕ, zero, suc, ◌+◌, ◌≤◌, ◌<◌, ◌≡◌, refl, some, true, false, List, [], ◌∷◌, ◌++◌, update, arith,
  All, All-append, Bool-cases, some_inj, inl, inr, subst, ==_refl, ne→==, ℕ_discrete, ◌≢◌, ◌⊎◌,
}
use rust_so_kernel.Process.{Process}
use rust_so_kernel.Process.Scheduler.{Scheduler, push_back, queue_index}
use rust_so_kernel.Process.Scheduler.Pick.{IsQueued, Queued, push_back-Queued, update-Queued}
use rust_so_kernel.Process.Scheduler.Aging.{
  needs_boost, boost, turn, age_queue, turns, age_from, age_processes,
}

turns-append : (xs ys : List Process) → turns (xs ++ ys) ≡ turns xs + turns ys
unfolding turns
turns-append [] ys = omega arith
turns-append (p ∷ xs) ys = omega (arith, turns-append xs ys)

-- Each turn uses up at least one.
turn-turns :
    (pri : ℕ) (done : List Process) (p : Process) (rest : List Process) (queues : ℕ → List Process)
    → turns (turn pri done p rest queues).1 < turns (p ∷ rest)
unfolding turn turns needs_boost boost
turn-turns pri done p rest queues = ground (arith, turns-append rest (boost p ∷ []))

-- With that much fuel the loop over a queue returns.
age_queue-total :
    (fuel pri : ℕ) (done rest : List Process) (queues : ℕ → List Process)
    → turns rest ≤ fuel
    → (out : ℕ → List Process) × (age_queue fuel pri done rest queues ≡ some out)
unfolding age_queue
age_queue-total fuel pri done [] queues h = (update queues pri done, refl)
age_queue-total zero pri done (p ∷ rest) queues h =
    absurd (omega (arith, turn-turns pri done p rest queues))
age_queue-total (suc fuel) pri done (p ∷ rest) queues h =
    let (d, r, q) = turn pri done p rest queues in
    age_queue-total fuel pri d r q (omega (arith, turn-turns pri done p rest queues))

age_from-total :
    (n pri : ℕ) (queues : ℕ → List Process)
    → (out : ℕ → List Process) × (age_from n pri queues ≡ some out)
unfolding age_from
age_from-total zero pri queues = (queues, refl)
age_from-total (suc n) pri queues =
    let (q, e) = age_queue-total (turns (queues pri)) pri [] (queues pri) queues (omega arith) in
    let (out, e') = age_from-total n (suc pri) q in (out, rw (e, age_from) e')

-- At its base priority, or above it, or the idle process.
abbrev pub IsSettled : Process → Type 0
IsSettled p = needs_boost p ≡ false

-- The loop over queue `pri`: what is behind it is settled, and so are the queues below.
record IsCut (pri : ℕ) (done rest : List Process) (queues : ℕ → List Process) : Type 0 where
  queued : Queued queues
  done_queued : All (IsQueued pri) done
  rest_queued : All (IsQueued pri) rest
  done_settled : All IsSettled done
  below : (j : ℕ) → j < pri → All IsSettled (queues j)

boost-index : (p : Process) → needs_boost p ≡ true → queue_index p ≤ queue_index (boost p)
unfolding needs_boost boost
boost-index p h = ground arith

push_back_below :
    (p : Process) (queues : ℕ → List Process) (j : ℕ)
    → j < queue_index p
    → push_back p queues j ≡ queues j
unfolding push_back
push_back_below p queues j h = rw (ne→== j (queue_index p) (λ e. omega arith))

module _ (pri : ℕ) (done : List Process) (p : Process) (rest : List Process)
    (queues : ℕ → List Process) (c : IsCut pri done (p ∷ rest) queues) where
  abbrev AfterTurn : List Process × List Process × (ℕ → List Process) → Type 0
  AfterTurn t = IsCut pri t.0 t.1 t.2

  turn_kept : needs_boost p ≡ false → AfterTurn (turn pri done p rest queues)
  unfolding turn
  turn_kept h =
      rw (h, turn)
        (record {
          queued = c.queued;
          done_queued = All-append (IsQueued pri) done (p ∷ []) c.done_queued (c.rest_queued.0, tt);
          rest_queued = c.rest_queued.1;
          done_settled = All-append IsSettled done (p ∷ []) c.done_settled (h, tt);
          below = c.below;
        })

  turn_same :
      needs_boost p ≡ true → queue_index (boost p) ≡ pri → AfterTurn (turn pri done p rest queues)
  unfolding turn boost
  turn_same h e =
      rw (h, e, ==_refl pri, turn)
        (record {
          queued = c.queued;
          done_queued = c.done_queued;
          rest_queued =
              All-append (IsQueued pri) rest (boost p ∷ []) c.rest_queued.1
                ((c.rest_queued.0.0, e), tt);
          done_settled = c.done_settled;
          below = c.below;
        })

  turn_moved :
      needs_boost p ≡ true → queue_index (boost p) ≢ pri → AfterTurn (turn pri done p rest queues)
  unfolding turn boost
  turn_moved h ne =
      rw (h, ne→== _ pri ne, turn)
        (record {
          queued = push_back-Queued (boost p) queues c.rest_queued.0.0 c.queued;
          done_queued = c.done_queued;
          rest_queued = c.rest_queued.1;
          done_settled = c.done_settled;
          below = λ j lt.
              rw
                (push_back_below (boost p) queues j
                  (omega (arith, boost-index p h, c.rest_queued.0.1)))
                (c.below j lt);
        })

  turn-IsCut : AfterTurn (turn pri done p rest queues)
  turn-IsCut = elim (Bool-cases (needs_boost p)) [
    | inr kept ↦ turn_kept kept
    | inl h ↦ (elim (ℕ_discrete (queue_index (boost p)) pri) [
      | yes same ↦ turn_same h same
      | no moved ↦ turn_moved h moved
    ])
  ]

-- The queues up to `pri` are settled when its loop ends.
record IsAged (pri : ℕ) (queues : ℕ → List Process) : Type 0 where
  queued : Queued queues
  settled : (j : ℕ) → j < pri → All IsSettled (queues j)

age_queue-IsAged :
    (fuel pri : ℕ) (done rest : List Process) (queues out : ℕ → List Process)
    → IsCut pri done rest queues
    → age_queue fuel pri done rest queues ≡ some out
    → IsAged (suc pri) out
unfolding age_queue
age_queue-IsAged fuel pri done [] queues out c h = subst (IsAged (suc pri)) (some_inj h) (record {
  queued = update-Queued pri done queues c.done_queued c.queued;
  settled = λ j lt. elim (ℕ_discrete j pri) [
    | yes e ↦ rw (e, ==_refl pri) c.done_settled
    | no ne ↦ rw (ne→== j pri ne) (c.below j (omega arith))
  ];
})
age_queue-IsAged zero pri done (p ∷ rest) queues out c h = absurd (cc)
age_queue-IsAged (suc fuel) pri done (p ∷ rest) queues out c h =
    let (d, r, q) = turn pri done p rest queues in
    age_queue-IsAged fuel pri d r q out (turn-IsCut pri done p rest queues c) h

age_from-IsAged :
    (n pri end : ℕ) (queues out : ℕ → List Process)
    → pri + n ≡ end
    → IsAged pri queues
    → age_from n pri queues ≡ some out
    → IsAged end out
unfolding age_from
age_from-IsAged zero pri end queues out e a h =
    subst (IsAged end) (some_inj h) (let e' : pri ≡ end = omega arith in rw (← e') a)
age_from-IsAged (suc n) pri end queues out e a h =
    let (q, e') = age_queue-total (turns (queues pri)) pri [] (queues pri) queues (omega arith) in
    age_from-IsAged n (suc pri) end q out (omega arith)
      (age_queue-IsAged _ pri [] (queues pri) queues q
        (record {
          queued = a.queued;
          done_queued = tt;
          rest_queued = a.queued pri;
          done_settled = tt;
          below = a.settled;
        })
        e')
      (rw (e', age_from) at h)

-- The idle process, or one at its base priority or above.
abbrev pub IsRestored : Process → Type 0
IsRestored p = (p.pid ≡ 0) ⊎ (p.priority ≤ p.effective_priority)

-- The aging pass returns, with fuel for one turn for each process and each boost.
pub age_processes-total : (s : Scheduler) → (s' : Scheduler) × (age_processes s ≡ some s')
unfolding age_processes
age_processes-total s =
    let (q, e) = age_from-total 11 0 s.run_queues in
    (record s { run_queues = q }, rw (e, age_processes))

module _ (s s' : Scheduler) (q : Queued s.run_queues) (h : age_processes s ≡ some s') where
  aged : (out : ℕ → List Process) × IsAged 11 out × (record s { run_queues = out } ≡ s')
  unfolding age_processes
  aged =
      let (out, e) = age_from-total 11 0 s.run_queues in
      (
        out,
        age_from-IsAged 11 0 11 s.run_queues out refl
            (record { queued = q; settled = λ j lt. absurd (omega arith) }) e,
        some_inj (rw (e, age_processes) at h),
      )

  pub age_processes-Queued : Queued s'.run_queues
  age_processes-Queued =
      let (out, a, e) = aged in subst (λ (t : Scheduler). Queued t.run_queues) e a.queued
