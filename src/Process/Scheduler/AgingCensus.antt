-- ===== src/Process/Scheduler/AgingCensus.antt =====
-- The aging pass moves processes between the run queues and keeps every one of them.
use rust_so_kernel.Prelude.{
  ℕ, zero, suc, ◌+◌, ◌≡◌, ap, some, List, [], ◌∷◌, update, arith, Bool-cases, Option-cases,
  some_inj, inl, inr, subst, ==_refl, ne→==, ℕ_discrete, sym, ◌∙◌, ◌≢◌, ◌<◌, ◌≤◌,
}
use rust_so_kernel.Process.{Process}
use rust_so_kernel.Process.Scheduler.{Scheduler, push_back, queue_index}
use rust_so_kernel.Process.Scheduler.Census.{
  one, count, count_queues, population, count-snoc, count_queues-update, count_queues-push_back,
}
use rust_so_kernel.Process.Scheduler.Aging.{
  needs_boost, boost, turn, age_queue, turns, age_from, age_processes,
}

-- While queue `pri` is cut, its processes are those of the two parts.
cut_count : ℕ → ℕ → List Process → List Process → (ℕ → List Process) → ℕ
cut_count pid pri done rest queues =
    count_queues pid (update queues pri []) + count pid done + count pid rest

push_back_at :
    (pid pri : ℕ) (p : Process) (queues : ℕ → List Process)
    → queue_index p ≢ pri
    → pri < 11
    → count_queues pid (update (push_back p queues) pri [])
      ≡ count_queues pid (update queues pri []) + one pid p
unfolding push_back
push_back_at pid pri p queues ne lt =
    let side = count_queues-update pid pri [] (push_back p queues) lt in
    let side' = rw (push_back, ne→== pri (queue_index p) (λ e. ne (sym e))) at side in
    omega
      (arith, side', count_queues-update pid pri [] queues lt, count_queues-push_back pid p queues)

turn-cut_count :
    (pid pri : ℕ) (done : List Process) (p : Process) (rest : List Process)
    (queues : ℕ → List Process)
    → pri < 11
    → (let t = turn pri done p rest queues in cut_count pid pri t.0 t.1 t.2)
      ≡ cut_count pid pri done (p ∷ rest) queues
unfolding turn cut_count boost count
turn-cut_count pid pri done p rest queues lt = elim (Bool-cases (needs_boost p)) [
  | inr kept ↦ rw (kept, turn) (omega (arith, count-snoc pid done p))
  | inl h ↦ (elim (ℕ_discrete (queue_index (boost p)) pri) [
    | yes same ↦ rw (h, same, ==_refl pri, turn) (omega (arith, count-snoc pid rest (boost p)))
    | no moved ↦
        rw (h, ne→== _ pri moved, turn)
          (omega (arith, push_back_at pid pri (boost p) queues moved lt))
  ])
]

age_queue-count :
    (pid fuel pri : ℕ) (done rest : List Process) (queues out : ℕ → List Process)
    → pri < 11
    → age_queue fuel pri done rest queues ≡ some out
    → count_queues pid out ≡ cut_count pid pri done rest queues
unfolding age_queue
age_queue-count pid fuel pri done [] queues out lt h =
    subst (λ q. count_queues pid q ≡ cut_count pid pri done [] queues) (some_inj h)
      (at_end pid pri done queues lt)
  where
    at_end :
        (pid pri : ℕ) (done : List Process) (queues : ℕ → List Process)
        → pri < 11
        → count_queues pid (update queues pri done) ≡ cut_count pid pri done [] queues
    at_end pid pri done queues lt =
        unfold cut_count count in
        omega (
          arith,
          count_queues-update pid pri done queues lt,
          count_queues-update pid pri [] queues lt,
        )
age_queue-count pid zero pri done (p ∷ rest) queues out lt h = absurd (cc)
age_queue-count pid (suc fuel) pri done (p ∷ rest) queues out lt h =
    let (d, r, q) = turn pri done p rest queues in
    age_queue-count pid fuel pri d r q out lt h ∙ turn-cut_count pid pri done p rest queues lt

age_from-count :
    (pid n pri : ℕ) (queues out : ℕ → List Process)
    → pri + n ≤ 11
    → age_from n pri queues ≡ some out
    → count_queues pid out ≡ count_queues pid queues
unfolding age_from cut_count count
age_from-count pid zero pri queues out lt h = ap (count_queues pid) (sym (some_inj h))
age_from-count pid (suc n) pri queues out lt h =
    elim (Option-cases (age_queue (turns (queues pri)) pri [] (queues pri) queues)) [
      | inl e ↦ absurd (let h' = rw (e, age_from) at h in cc)
      | inr (q, e) ↦
          age_from-count pid n (suc pri) q out (omega arith) (rw (e, age_from) at h)
          ∙ omega (
            arith,
            age_queue-count pid (turns (queues pri)) pri [] (queues pri) queues q (omega arith) e,
            count_queues-update pid pri [] queues (omega arith),
          )
    ]

-- An aging pass keeps every process: each pid stands in the queues and the running slot as often as
-- before.
pub age_processes-population :
    (pid : ℕ) (s s' : Scheduler) → age_processes s ≡ some s' → population pid s' ≡ population pid s
unfolding age_processes population
age_processes-population pid s s' h = elim (Option-cases (age_from 11 0 s.run_queues)) [
  | inl e ↦ absurd (let h' = rw (e, age_processes) at h in cc)
  | inr (q, e) ↦
      subst (λ (t : Scheduler). population pid t ≡ population pid s)
        (some_inj (rw (e, age_processes) at h))
        (omega (arith, age_from-count pid 11 0 s.run_queues q (omega arith) e))
]
