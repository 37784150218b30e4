-- ===== src/Process/Scheduler/Invariant.antt =====
-- The invariant of the scheduler: ready processes wait in the queue of their priority, the wait
-- queue holds only blocked, dead and stopped ones, and what runs is running.
use rust_so_kernel.Prelude.{
  ℕ, ◌≡◌, refl, Option, none, some, Bool, true, false, List, [], ◌∷◌, ◌++◌, arith, All, All-append,
  Bool-cases, Option-cases, remove_first, Cut-All, remove_first-Cut, some_inj, inl, inr, subst,
  ◌==◌, ◌&&◌,
}
use rust_so_kernel.Process.{Process, ProcessState, TrapFrame, ready, running, blocked, stopped}
use rust_so_kernel.Process.Scheduler.{Scheduler, Machine, Cpu, add_process, push_back, pick}
use rust_so_kernel.Process.Scheduler.Pick.{Queued, push_back-Queued, pick-Queued}
use rust_so_kernel.Process.Scheduler.Switch.{
  enter, bury, kill_current, kill_and_switch_tf, park, stop_and_switch_tf, block_current, decay,
  requeue, put_away, switch_to_next, save, load, restore_all,
}
use rust_so_kernel.Process.Scheduler.Wake.{
  wake, wake_with_retval, wake_stopped, is_blocked, is_stopped,
}

abbrev pub parked_state : ProcessState → Bool
parked_state ready = false
parked_state running = false
parked_state _ = true

abbrev pub IsParked : Process → Type 0
IsParked p = parked_state p.state ≡ true

abbrev pub IsExecuting : Option Process → Type 0
IsExecuting none = Unit
IsExecuting (some p) = p.state ≡ running

pub record IsValid (s : Scheduler) : Type 0 where
  pub queued : Queued s.run_queues
  pub waiting : All IsParked s.wait_queue
  pub executing : IsExecuting s.current

pub add_process-IsValid :
    (p : Process) (s : Scheduler) → p.state ≡ ready → IsValid s → IsValid (add_process p s)
unfolding add_process
add_process-IsValid p s e v = record {
  queued = push_back-Queued _ s.run_queues e v.queued;
  waiting = v.waiting;
  executing = v.executing;
}

pub enter-IsValid :
    (restore : Process → Cpu → Cpu) (m m' : Machine)
    → enter restore m ≡ some m'
    → IsValid m.sched
    → IsValid m'.sched
unfolding enter
enter-IsValid restore m m' h v = elim (Option-cases (pick 11 m.sched.run_queues)) [
  | inl e ↦ absurd (let h' = rw (e, enter) at h in cc)
  | inr ((p, queues), e) ↦
      let out = some_inj (rw (e, enter) at h) in
      subst (λ (n : Machine). IsValid n.sched) out
        (record {
          queued = pick-Queued 11 _ p queues e v.queued;
          waiting = v.waiting;
          executing = refl;
        })
]

-- A process that joins the wait queue.
All-snoc :
    (ps : List Process) (p : Process) → All IsParked ps → IsParked p → All IsParked (ps ++ p ∷ [])
All-snoc ps p a h = All-append IsParked ps (p ∷ []) a (h, tt)

bury-IsValid : (p : Process) (s : Scheduler) → IsValid s → IsValid (bury p s)
unfolding bury
bury-IsValid p s v = elim (Bool-cases p.is_thread) [
  | inl thread ↦
      rw (thread, bury) (record { queued = v.queued; waiting = v.waiting; executing = v.executing })
  | inr process ↦
      rw (process, bury)
        (record {
          queued = v.queued;
          waiting = All-snoc s.wait_queue _ v.waiting refl;
          executing = v.executing;
        })
]

kill_at :
    (o : Option Process) (s : Scheduler) → s.current ≡ o → IsValid s → IsValid (kill_current s).1
unfolding kill_current
kill_at none s e v = rw (e, kill_current) v
kill_at (some p) s e v =
    rw (e, kill_current)
      (bury-IsValid p _ (record { queued = v.queued; waiting = v.waiting; executing = tt }))

pub kill_current-IsValid : (s : Scheduler) → IsValid s → IsValid (kill_current s).1
kill_current-IsValid s v = kill_at s.current s refl v

park_at :
    (st : ProcessState) (tf : TrapFrame) (o : Option Process) (m : Machine)
    → m.sched.current ≡ o
    → parked_state st ≡ true
    → IsValid m.sched
    → IsValid (park st tf m).sched
unfolding park save
park_at st tf none m e h v = rw (e, park) v
park_at st tf (some p) m e h v =
    rw (e, park)
      (record {
        queued = v.queued;
        waiting = All-snoc m.sched.wait_queue _ v.waiting h;
        executing = tt;
      })

pub park-IsValid :
    (st : ProcessState) (tf : TrapFrame) (m : Machine)
    → parked_state st ≡ true
    → IsValid m.sched
    → IsValid (park st tf m).sched
park-IsValid st tf m h v = park_at st tf m.sched.current m refl h v

decay-ready : (p : Process) → p.state ≡ ready → (decay p).state ≡ ready
unfolding decay
decay-ready p e = ground arith

requeue_at :
    (st : ProcessState) (p : Process) (s : Scheduler)
    → p.state ≡ st
    → IsValid s
    → IsValid (requeue p s)
unfolding requeue
requeue_at running p s e v =
    rw (e, requeue)
      (record {
        queued =
            push_back-Queued (decay (record p { state = ready })) s.run_queues
              (decay-ready (record p { state = ready }) refl) v.queued;
        waiting = v.waiting;
        executing = v.executing;
      })
requeue_at ready p s e v =
    rw (e, requeue)
      (record {
        queued = push_back-Queued p s.run_queues e v.queued;
        waiting = v.waiting;
        executing = v.executing;
      })
requeue_at other p s e v =
    rw (e, requeue)
      (record {
        queued = v.queued;
        waiting = All-snoc s.wait_queue p v.waiting (rw e refl);
        executing = v.executing;
      })

put_away_at :
    (tf : TrapFrame) (o : Option Process) (m : Machine)
    → m.sched.current ≡ o
    → IsValid m.sched
    → IsValid (put_away tf m).sched
unfolding put_away
put_away_at tf none m e v = rw (e, put_away) v
put_away_at tf (some p) m e v =
    rw (e, put_away)
      (requeue_at _ (save tf m.cpu p) _ refl
        (record { queued = v.queued; waiting = v.waiting; executing = tt }))

pub put_away-IsValid :
    (tf : TrapFrame) (m : Machine) → IsValid m.sched → IsValid (put_away tf m).sched
put_away-IsValid tf m v = put_away_at tf m.sched.current m refl v

pub switch_to_next-IsValid :
    (tf : TrapFrame) (m : Machine) → IsValid m.sched → IsValid (switch_to_next tf m).sched
unfolding switch_to_next
switch_to_next-IsValid tf m v = elim (Option-cases (enter restore_all (put_away tf m))) [
  | inl e ↦ rw (e, switch_to_next) (put_away-IsValid tf m v)
  | inr (m', e) ↦
      rw (e, switch_to_next)
        (enter-IsValid restore_all (put_away tf m) m' e (put_away-IsValid tf m v))
]

-- The moves out of the wait queue share one step.
wake_step :
    (test : Process → Bool) (f : Process → Process) (s : Scheduler) (p : Process)
    (rest : List Process)
    → ((q : Process) → (f q).state ≡ ready)
    → remove_first test s.wait_queue ≡ some (p, rest)
    → IsValid s
    → IsValid (record s { wait_queue = rest; run_queues = push_back (f p) s.run_queues })
wake_step test f s p rest h e v = record {
  queued = push_back-Queued (f p) s.run_queues (h p) v.queued;
  waiting = (Cut-All IsParked (remove_first-Cut test s.wait_queue p rest e) v.waiting).1;
  executing = v.executing;
}

pub wake-IsValid : (pid : ℕ) (s : Scheduler) → IsValid s → IsValid (wake pid s)
unfolding wake
wake-IsValid pid s v =
    elim (Option-cases (remove_first (λ p. p.pid == pid && is_blocked p) s.wait_queue)) [
      | inl e ↦ rw (e, wake) v
      | inr ((p, rest), e) ↦
          rw (e, wake) (wake_step _ (λ q. record q { state = ready }) s p rest (λ q. refl) e v)
    ]

pub wake_with_retval-IsValid :
    (pid rax : ℕ) (s : Scheduler) → IsValid s → IsValid (wake_with_retval pid rax s)
unfolding wake_with_retval
wake_with_retval-IsValid pid rax s v =
    elim (Option-cases (remove_first (λ p. p.pid == pid && is_blocked p) s.wait_queue)) [
      | inl e ↦ rw (e, wake_with_retval) v
      | inr ((p, rest), e) ↦
          rw (e, wake_with_retval)
            (wake_step _
              (λ q. record q { trapframe = record (q.trapframe) { rax = rax }; state = ready }) s p
              rest (λ q. refl) e v)
    ]

pub wake_stopped-IsValid : (pid : ℕ) (s : Scheduler) → IsValid s → IsValid (wake_stopped pid s).1
unfolding wake_stopped
wake_stopped-IsValid pid s v =
    elim (Option-cases (remove_first (λ p. p.pid == pid && is_stopped p) s.wait_queue)) [
      | inl e ↦ rw (e, wake_stopped) v
      | inr ((p, rest), e) ↦
          rw (e, wake_stopped)
            (wake_step _ (λ q. record q { state = ready; stopped_by_signal = none }) s p rest
              (λ q. refl) e v)
    ]

pub block_current-IsValid :
    (tf : TrapFrame) (m m' : Machine)
    → block_current tf m ≡ some m'
    → IsValid m.sched
    → IsValid m'.sched
unfolding block_current
block_current-IsValid tf m m' h v =
    enter-IsValid restore_all (park blocked tf m) m' h (park-IsValid blocked tf m refl v)

pub stop_and_switch_tf-IsValid :
    (tf : TrapFrame) (m m' : Machine)
    → stop_and_switch_tf tf m ≡ some m'
    → IsValid m.sched
    → IsValid m'.sched
unfolding stop_and_switch_tf
stop_and_switch_tf-IsValid tf m m' h v =
    enter-IsValid restore_all (park stopped tf m) m' h (park-IsValid stopped tf m refl v)

pub kill_and_switch_tf-IsValid :
    (m m' : Machine) → kill_and_switch_tf m ≡ some m' → IsValid m.sched → IsValid m'.sched
unfolding kill_and_switch_tf
kill_and_switch_tf-IsValid m m' h v =
    enter-IsValid load (record m { sched = (kill_current m.sched).1 }) m' h
      (kill_current-IsValid m.sched v)
