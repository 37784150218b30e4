-- ===== src/Process/Scheduler/Told.antt =====
-- Signals and wait statuses reach other processes without moving them: the invariant and the
-- census hold after `notify_child_death`, `notify_child_stopped` and `queue_signal_to_group`.
use rust_so_kernel.Prelude.{
  ℕ, zero, suc, ◌≡◌, refl, Option, none, some, Bool, List, [], ◌∷◌, arith, Bool-cases, Option-cases,
  some_inj, inl, inr, subst, ◌==◌, ◌&&◌, ◌∙◌, All, map, Changed-All, change_first,
  change_first-Changed, find?,
}
use rust_so_kernel.Process.{Process}
use rust_so_kernel.Process.Signal.{queue_signal, sigchld}
use rust_so_kernel.Process.Scheduler.{Scheduler}
use rust_so_kernel.Process.Scheduler.Pick.{IsQueued, Queued, update-Queued}
use rust_so_kernel.Process.Scheduler.Invariant.{IsValid, IsParked, IsExecuting, wake-IsValid}
use rust_so_kernel.Process.Scheduler.Wake.{is_stopped}
use rust_so_kernel.Process.Scheduler.Notify.{
  change_queues, change_process, signal_if, queue_signal_to_group, signal_parent, answer,
  answer_waiter, notify_child_death, mark_reported, notify_child_stopped,
}

-- A change that leaves a process where it belongs.
record Keeps (f : Process → Process) : Type 0 where
  state : (p : Process) → (f p).state ≡ p.state
  priority : (p : Process) → (f p).effective_priority ≡ p.effective_priority
  pid : (p : Process) → (f p).pid ≡ p.pid

queue_signal-Keeps : (sig : ℕ) → Keeps (queue_signal sig)
unfolding queue_signal
queue_signal-Keeps sig = record {
  state = λ p. ground arith;
  priority = λ p. ground arith;
  pid = λ p. ground arith;
}

module _ (f : Process → Process) (k : Keeps f) where
  keeps-IsQueued : (j : ℕ) (p : Process) → IsQueued j p → IsQueued j (f p)
  keeps-IsQueued j p q = (k.state p ∙ q.0, rw (k.priority p) q.1)

  keeps-IsParked : (p : Process) → IsParked p → IsParked (f p)
  keeps-IsParked p h = rw (k.state p) h

  keeps-All :
      {P : Process → Type 0}
      → ((p : Process) → P p → P (f p))
      → (ps : List Process) → All P ps
      → All P (map f ps)
  keeps-All h [] a = tt
  keeps-All h (p ∷ ps) a = (h p a.0, keeps-All h ps a.1)

  change_queues-Queued :
      (n pri : ℕ) (test : Process → Bool) (queues queues' : ℕ → List Process)
      → change_queues n pri test f queues ≡ some queues'
      → Queued queues
      → Queued queues'
  unfolding change_queues
  change_queues-Queued zero pri test queues queues' h q = absurd (cc)
  change_queues-Queued (suc n) pri test queues queues' h q =
      elim (Option-cases (change_first test f (queues pri))) [
        | inl e ↦
            change_queues-Queued n (suc pri) test queues queues' (rw (e, change_queues) at h) q
        | inr (ys, e) ↦
            let (y, found, c) = change_first-Changed test f (queues pri) ys e in
            subst Queued (some_inj (rw (e, change_queues) at h)) (
              update-Queued pri ys queues
                (Changed-All (IsQueued pri) c (keeps-IsQueued pri) (q pri)) q)
      ]

  change_process-IsValid : (pid : ℕ) (s : Scheduler) → IsValid s → IsValid (change_process pid f s)
  unfolding change_process
  change_process-IsValid pid s v =
      elim (Option-cases (change_queues 11 0 (λ p. p.pid == pid) f s.run_queues)) [
        | inr (q, e) ↦
            rw (e, change_process)
              (record {
                queued = change_queues-Queued 11 0 _ s.run_queues q e v.queued;
                waiting = v.waiting;
                executing = v.executing;
              })
        | inl e ↦ (elim (Option-cases (change_first (λ p. p.pid == pid) f s.wait_queue)) [
          | inl e' ↦ rw (e, e', change_process) v
          | inr (ys, e') ↦
              let (y, found, c) = change_first-Changed _ f s.wait_queue ys e' in
              rw (e, e', change_process)
                (record {
                  queued = v.queued;
                  waiting = Changed-All IsParked c keeps-IsParked v.waiting;
                  executing = v.executing;
                })
        ])
      ]

signal_parent_at :
    (parent : ℕ) (o : Option Process) (s : Scheduler)
    → s.current ≡ o
    → IsValid s
    → IsValid (signal_parent (some parent) s)
unfolding signal_parent
signal_parent_at parent none s e v =
    rw (e, signal_parent)
      (change_process-IsValid (queue_signal sigchld) (queue_signal-Keeps sigchld) parent s v)
signal_parent_at parent (some p) s e v = elim (Bool-cases (p.pid == parent)) [
  | inr other ↦
      rw (e, other, signal_parent)
        (change_process-IsValid (queue_signal sigchld) (queue_signal-Keeps sigchld) parent s v)
  | inl same ↦
      rw (e, same, signal_parent)
        (record {
          queued = v.queued;
          waiting = v.waiting;
          executing = (queue_signal-Keeps sigchld).state p ∙ (rw e at v.executing);
        })
]

signal_parent-IsValid :
    (parent : Option ℕ) (s : Scheduler) → IsValid s → IsValid (signal_parent parent s)
unfolding signal_parent
signal_parent-IsValid none s v = v
signal_parent-IsValid (some parent) s v = signal_parent_at parent s.current s refl v

answer_waiter-IsValid :
    (test : Process → Bool) (child status : ℕ) (after : List Process → List Process) (s : Scheduler)
    → ((ps : List Process) → All IsParked ps → All IsParked (after ps))
    → IsValid s
    → IsValid (answer_waiter test child status after s)
unfolding answer_waiter answer
answer_waiter-IsValid test child status after s keep v =
    elim (Option-cases (change_first test (answer child status) s.wait_queue)) [
      | inl e ↦ rw (e, answer_waiter) v
      | inr (ys, e) ↦
          let (y, found, c) = change_first-Changed test (answer child status) s.wait_queue ys e in
          rw (e, found, answer_waiter)
            (wake-IsValid y.pid (record s { wait_queue = after ys })
              (record {
                queued = v.queued;
                waiting = keep ys (Changed-All IsParked c (λ p h. h) v.waiting);
                executing = v.executing;
              }))
    ]

mark_reported-All :
    (pid : ℕ) (ps : List Process) → All IsParked ps → All IsParked (mark_reported pid ps)
unfolding mark_reported
mark_reported-All pid [] a = tt
mark_reported-All pid (p ∷ ps) a = elim (Bool-cases (p.pid == pid)) [
  | inl e ↦ rw (e, mark_reported) a
  | inr e ↦ rw (e, mark_reported) (a.0, mark_reported-All pid ps a.1)
]

pub notify_child_death-IsValid :
    (child : ℕ) (parent : Option ℕ) (s : Scheduler)
    → IsValid s
    → IsValid (notify_child_death child parent s)
unfolding notify_child_death
notify_child_death-IsValid child parent s v =
    answer_waiter-IsValid _ child _ (λ ps. ps) (signal_parent parent s) (λ ps a. a)
      (signal_parent-IsValid parent s v)

pub notify_child_stopped-IsValid :
    (child : ℕ) (parent : Option ℕ) (s : Scheduler)
    → IsValid s
    → IsValid (notify_child_stopped child parent s)
unfolding notify_child_stopped
notify_child_stopped-IsValid child parent s v =
    let v' = signal_parent-IsValid parent s v in
    elim (Option-cases
      (find? (λ p. p.pid == child && is_stopped p) (signal_parent parent s).wait_queue)) [
        | inl e ↦ rw (e, notify_child_stopped) v'
        | inr (p, e) ↦
            rw (e, notify_child_stopped)
              (answer_waiter-IsValid _ child _ (mark_reported child) (signal_parent parent s)
                (mark_reported-All child) v')
      ]

signal_if-Keeps : (pgid sig : ℕ) → Keeps (signal_if pgid sig)
unfolding signal_if queue_signal
signal_if-Keeps pgid sig = record {
  state = λ p. ground arith;
  priority = λ p. ground arith;
  pid = λ p. ground arith;
}

group_current :
    (pgid sig : ℕ) (o : Option Process)
    → IsExecuting o
    → IsExecuting (elim o [ none ↦ none | some p ↦ some (signal_if pgid sig p) ])
group_current pgid sig none h = tt
group_current pgid sig (some p) h = (signal_if-Keeps pgid sig).state p ∙ h

pub queue_signal_to_group-IsValid :
    (pgid sig : ℕ) (s : Scheduler) → IsValid s → IsValid (queue_signal_to_group pgid sig s)
unfolding queue_signal_to_group
queue_signal_to_group-IsValid pgid sig s v =
    let k = signal_if-Keeps pgid sig in
    record {
      queued = λ j.
          keeps-All (signal_if pgid sig) k (keeps-IsQueued (signal_if pgid sig) k j)
            (s.run_queues j) (v.queued j);
      waiting =
          keeps-All (signal_if pgid sig) k (keeps-IsParked (signal_if pgid sig) k) s.wait_queue
            v.waiting;
      executing = group_current pgid sig s.current v.executing;
    }
