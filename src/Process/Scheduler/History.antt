-- ===== src/Process/Scheduler/History.antt =====
-- The invariant of the scheduler after any history of calls.
use rust_so_kernel.Prelude.{
  ℕ, ◌≡◌, refl, Option, none, some, Bool, List, [], ◌∷◌, arith, Bool-cases, Option-cases, some_inj,
  inl, inr, subst, sym, ◌∙◌, ◌==◌, ◌%◌, All,
}
use rust_so_kernel.Process.{Process, TrapFrame, ready}
use rust_so_kernel.Process.Scheduler.{Scheduler, Machine, aging_epoch}
use rust_so_kernel.Process.Scheduler.Switch.{switch_to_next}
use rust_so_kernel.Process.Scheduler.Wake.{wake}
use rust_so_kernel.Process.Scheduler.Aging.{tick, tick_frees, count_down, age_processes}
use rust_so_kernel.Process.Scheduler.Settled.{age_processes-Queued, age_processes-total}
use rust_so_kernel.Process.Scheduler.Notify.{resolve_wait_status}
use rust_so_kernel.Process.Scheduler.Invariant.{
  IsValid, add_process-IsValid, switch_to_next-IsValid, block_current-IsValid,
  stop_and_switch_tf-IsValid, kill_and_switch_tf-IsValid, wake-IsValid, wake_with_retval-IsValid,
  wake_stopped-IsValid,
}
use rust_so_kernel.Process.Scheduler.Told.{
  notify_child_death-IsValid, notify_child_stopped-IsValid, queue_signal_to_group-IsValid,
}
use rust_so_kernel.Process.Scheduler.Ops.{
  Op, adds, timer, blocks, stops, dies, wakes, resumes, wakes_with, signals, child_died,
  child_stopped, flushes, wake_all, timer_switch, step, run,
}

age-rest :
    (s s' : Scheduler)
    → age_processes s ≡ some s'
    → (s'.wait_queue ≡ s.wait_queue) × (s'.current ≡ s.current)
unfolding age_processes
age-rest s s' h = ground arith

count_down-IsValid : (s : Scheduler) → IsValid s → IsValid (count_down s).1
unfolding count_down
count_down-IsValid s v = record { queued = v.queued; waiting = v.waiting; executing = v.executing }

age-IsValid : (s s' : Scheduler) → age_processes s ≡ some s' → IsValid s → IsValid s'
age-IsValid s s' h v =
    let (w, c) = age-rest s s' h in
    record {
      queued = age_processes-Queued s s' v.queued h;
      waiting = rw w v.waiting;
      executing = rw c v.executing;
    }

-- `tick` always returns, and keeps the invariant.
pub tick-IsValid :
    (fs : ℕ → Bool) (fv : ℕ × ℕ × ℕ → Bool) (s : Scheduler)
    → IsValid s
    → (expired : Bool) × (s' : Scheduler) × (tick fs fv s ≡ some (expired, s')) × IsValid s'
unfolding tick tick_frees
tick-IsValid fs fv s v =
    let t = tick_frees fs fv s in
    let vt : IsValid t = record {
      queued = v.queued;
      waiting = v.waiting;
      executing = v.executing;
    } in
    elim (Bool-cases (t.global_ticks % aging_epoch == 0)) [
      | inr e ↦ ((count_down t).0, (count_down t).1, rw e refl, count_down-IsValid t vt)
      | inl e ↦
          let (aged, ea) = age_processes-total t in
          (
            (count_down aged).0,
            (count_down aged).1,
            rw (e, ea) refl,
            count_down-IsValid aged (age-IsValid t aged ea vt),
          )
    ]

wake_all-IsValid : (pids : List ℕ) (s : Scheduler) → IsValid s → IsValid (wake_all pids s)
unfolding wake_all
wake_all-IsValid [] s v = v
wake_all-IsValid (pid ∷ pids) s v = wake_all-IsValid pids (wake pid s) (wake-IsValid pid s v)

-- The wakeups, the tick and the switch of the timer interrupt always return from a scheduler that
-- meets the invariant, and keep it.
pub timer_switch-IsValid :
    (fs : ℕ → Bool) (fv : ℕ × ℕ × ℕ → Bool) (pids : List ℕ) (tf : TrapFrame) (m : Machine)
    → IsValid m.sched
    → (m' : Machine) × (timer_switch fs fv pids tf m ≡ some m') × IsValid m'.sched
unfolding timer_switch
timer_switch-IsValid fs fv pids tf m v =
    let (expired, s, e, vs) =
      tick-IsValid fs fv (wake_all pids m.sched) (wake_all-IsValid pids m.sched v) in
    elim (Bool-cases expired) [
      | inl over ↦ (
        switch_to_next tf (record m { sched = s }),
        rw (e, over, timer_switch) refl,
        switch_to_next-IsValid tf (record m { sched = s }) vs,
      )
      | inr going ↦ (record m { sched = s }, rw (e, going, timer_switch) refl, vs)
    ]

flush_at :
    (o : Option Process) (s : Scheduler)
    → s.current ≡ o
    → IsValid s
    → IsValid (resolve_wait_status s).1
unfolding resolve_wait_status
flush_at none s e v = rw (e, resolve_wait_status) v
flush_at (some p) s e v = elim (Option-cases p.pending_wait_status) [
  | inl quiet ↦ rw (e, quiet, resolve_wait_status) v
  | inr (status, pending) ↦
      rw (e, pending, resolve_wait_status)
        (record { queued = v.queued; waiting = v.waiting; executing = rw e at v.executing })
]

-- A process is added as its constructors make it: ready.
abbrev pub Admissible : Op → Type 0
Admissible (adds p) = p.state ≡ ready
Admissible _ = Unit

pub step-IsValid :
    (op : Op) (m m' : Machine)
    → Admissible op
    → step op m ≡ some m'
    → IsValid m.sched
    → IsValid m'.sched
unfolding step
step-IsValid op m m' a h v = go op a h
  where
    via : (s : Scheduler) → some (record m { sched = s }) ≡ some m' → IsValid s → IsValid m'.sched
    via s e w = subst (λ (n : Machine). IsValid n.sched) (some_inj e) w

    go : (op : Op) → Admissible op → step op m ≡ some m' → IsValid m'.sched
    go (adds p) a h = via _ h (add_process-IsValid p m.sched a v)
    go (timer fs fv pids tf) a h =
        let (n, e, w) = timer_switch-IsValid fs fv pids tf m v in
        subst (λ (n : Machine). IsValid n.sched) (some_inj (sym e ∙ h)) w
    go (blocks tf) a h = block_current-IsValid tf m m' h v
    go (stops tf) a h = stop_and_switch_tf-IsValid tf m m' h v
    go dies a h = kill_and_switch_tf-IsValid m m' h v
    go (wakes pid) a h = via _ h (wake-IsValid pid m.sched v)
    go (resumes pid) a h = via _ h (wake_stopped-IsValid pid m.sched v)
    go (wakes_with pid rax) a h = via _ h (wake_with_retval-IsValid pid rax m.sched v)
    go (signals pgid sig) a h = via _ h (queue_signal_to_group-IsValid pgid sig m.sched v)
    go (child_died child parent) a h = via _ h (notify_child_death-IsValid child parent m.sched v)
    go (child_stopped child parent) a h =
        via _ h (notify_child_stopped-IsValid child parent m.sched v)
    go flushes a h = via _ h (flush_at m.sched.current m.sched refl v)

pub run-IsValid :
    (ops : List Op) (m m' : Machine)
    → All Admissible ops
    → run ops m ≡ some m'
    → IsValid m.sched
    → IsValid m'.sched
unfolding run
run-IsValid [] m m' a h v = subst (λ (n : Machine). IsValid n.sched) (some_inj h) v
run-IsValid (op ∷ ops) m m' a h v = elim (Option-cases (step op m)) [
  | inl e ↦ absurd (let h' = rw (e, run) at h in cc)
  | inr (n, e) ↦ run-IsValid ops n m' a.1 (rw (e, run) at h) (step-IsValid op m n a.0 e v)
]
