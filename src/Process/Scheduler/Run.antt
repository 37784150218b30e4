-- ===== src/Process/Scheduler/Run.antt =====
-- The operations of the scheduler as one step function, and what holds after any of them.
use rust_so_kernel.Prelude.{
  ℕ, ◌+◌, ◌≡◌, refl, ap, Option, none, some, Bool, List, arith, Option-cases, some_inj, inl, inr,
  subst, ◌==◌, ◌&&◌, ◌∙◌, remove_first, remove_first-Cut,
}
use rust_so_kernel.Process.{Process, ProcessState, TrapFrame, ready, running, blocked, stopped}
use rust_so_kernel.Process.Scheduler.{Scheduler, Machine, Cpu, push_back, pick}
use rust_so_kernel.Process.Scheduler.Switch.{
  enter, park, stop_and_switch_tf, block_current, decay, requeue, put_away, switch_to_next, save,
  restore_all,
}
use rust_so_kernel.Process.Scheduler.Wake.{wake, wake_stopped, is_blocked, is_stopped}
use rust_so_kernel.Process.Scheduler.Census.{
  one, one-cong, count_current, population, count-snoc, count_queues-push_back, count_queues-pick,
  count-Cut,
}

enter-population :
    (pid : ℕ) (restore : Process → Cpu → Cpu) (m m' : Machine)
    → enter restore m ≡ some m'
    → m.sched.current ≡ none
    → population pid m'.sched ≡ population pid m.sched
unfolding enter population
enter-population pid restore m m' h e = elim (Option-cases (pick 11 m.sched.run_queues)) [
  | inl stuck ↦ absurd (let h' = rw (stuck, enter) at h in cc)
  | inr ((p, queues), picked) ↦
      let out = some_inj (rw (picked, enter) at h) in
      subst (λ (n : Machine). population pid n.sched ≡ population pid m.sched) out
        (rw e (omega (arith, count_queues-pick pid m.sched.run_queues p queues picked)))
]

park-population :
    (pid : ℕ) (st : ProcessState) (tf : TrapFrame) (o : Option Process) (m : Machine)
    → m.sched.current ≡ o
    → (population pid (park st tf m).sched ≡ population pid m.sched)
      × ((park st tf m).sched.current ≡ none)
unfolding park save population
park-population pid st tf none m e = (rw (e, park) (rw e), rw (e, park) e)
park-population pid st tf (some p) m e = (
  rw (e, park)
      (omega (
        arith,
        count-snoc pid m.sched.wait_queue (record p {
          trapframe = tf;
          fs_base = m.cpu.fs_base;
          fpu_state = m.cpu.fpu;
          state = st;
        }),
        ap (count_current pid) e,
      )),
  rw (e, park) refl,
)

decay-pid : (p : Process) → (decay p).pid ≡ p.pid
unfolding decay
decay-pid p = ground arith

requeue-population :
    (pid : ℕ) (st : ProcessState) (p : Process) (s : Scheduler)
    → p.state ≡ st
    → s.current ≡ none
    → population pid (requeue p s) ≡ population pid s + one pid p
unfolding requeue population
requeue-population pid running p s e c =
    let q = record p { state = ready } in
    rw (e, requeue)
      (omega (
        arith,
        count_queues-push_back pid (decay q) s.run_queues,
        one-cong pid (decay q) q (decay-pid q),
      ))
requeue-population pid ready p s e c =
    rw (e, requeue) (omega (arith, count_queues-push_back pid p s.run_queues))
requeue-population pid other p s e c =
    rw (e, requeue) (omega (arith, count-snoc pid s.wait_queue p))

put_away-population :
    (pid : ℕ) (tf : TrapFrame) (o : Option Process) (m : Machine)
    → m.sched.current ≡ o
    → population pid (put_away tf m).sched ≡ population pid m.sched
unfolding put_away save population
put_away-population pid tf none m e = rw (e, put_away) (rw e)
put_away-population pid tf (some p) m e =
    rw (e, put_away)
      (requeue-population pid _ (save tf m.cpu p) (record (m.sched) { current = none }) refl refl
        ∙ omega (arith, ap (count_current pid) e))

requeue-current :
    (st : ProcessState) (p : Process) (s : Scheduler)
    → p.state ≡ st
    → (requeue p s).current ≡ s.current
unfolding requeue
requeue-current running p s e = rw (e, requeue)
requeue-current ready p s e = rw (e, requeue)
requeue-current other p s e = rw (e, requeue)

pub put_away-current :
    (tf : TrapFrame) (o : Option Process) (m : Machine)
    → m.sched.current ≡ o
    → (put_away tf m).sched.current ≡ none
unfolding put_away
put_away-current tf none m e = rw (e, put_away) e
put_away-current tf (some p) m e =
    rw (e, put_away)
      (requeue-current _ (save tf m.cpu p) (record (m.sched) { current = none }) refl)

-- A timer switch keeps every process: each pid stands in the queues and the running slot as often
-- as before.
pub switch_to_next-population :
    (pid : ℕ) (tf : TrapFrame) (m : Machine)
    → population pid (switch_to_next tf m).sched ≡ population pid m.sched
unfolding switch_to_next
switch_to_next-population pid tf m =
    let kept = put_away-population pid tf m.sched.current m refl in
    elim (Option-cases (enter restore_all (put_away tf m))) [
      | inl e ↦ rw (e, switch_to_next) kept
      | inr (m', e) ↦
          rw (e, switch_to_next)
            (enter-population pid restore_all (put_away tf m) m' e
                (put_away-current tf m.sched.current m refl)
              ∙ kept)
    ]

pub block_current-population :
    (pid : ℕ) (tf : TrapFrame) (m m' : Machine)
    → block_current tf m ≡ some m'
    → population pid m'.sched ≡ population pid m.sched
unfolding block_current
block_current-population pid tf m m' h =
    let (kept, free) = park-population pid blocked tf m.sched.current m refl in
    enter-population pid restore_all (park blocked tf m) m' h free ∙ kept

pub stop_and_switch_tf-population :
    (pid : ℕ) (tf : TrapFrame) (m m' : Machine)
    → stop_and_switch_tf tf m ≡ some m'
    → population pid m'.sched ≡ population pid m.sched
unfolding stop_and_switch_tf
stop_and_switch_tf-population pid tf m m' h =
    let (kept, free) = park-population pid stopped tf m.sched.current m refl in
    enter-population pid restore_all (park stopped tf m) m' h free ∙ kept

wake_step-population :
    (pid : ℕ) (test : Process → Bool) (f : Process → Process) (s : Scheduler) (p : Process)
    (rest : List Process)
    → (f p).pid ≡ p.pid
    → remove_first test s.wait_queue ≡ some (p, rest)
    → population pid (record s { wait_queue = rest; run_queues = push_back (f p) s.run_queues })
      ≡ population pid s
unfolding population
wake_step-population pid test f s p rest h e = omega (
  arith,
  count_queues-push_back pid (f p) s.run_queues,
  count-Cut pid (remove_first-Cut test s.wait_queue p rest e),
  one-cong pid (f p) p h,
)

pub wake-population :
    (pid child : ℕ) (s : Scheduler) → population pid (wake child s) ≡ population pid s
unfolding wake
wake-population pid child s =
    elim (Option-cases (remove_first (λ p. p.pid == child && is_blocked p) s.wait_queue)) [
      | inl e ↦ rw (e, wake)
      | inr ((p, rest), e) ↦
          rw (e, wake)
            (wake_step-population pid _ (λ q. record q { state = ready }) s p rest refl e)
    ]

pub wake_stopped-population :
    (pid child : ℕ) (s : Scheduler) → population pid (wake_stopped child s).1 ≡ population pid s
unfolding wake_stopped
wake_stopped-population pid child s =
    elim (Option-cases (remove_first (λ p. p.pid == child && is_stopped p) s.wait_queue)) [
      | inl e ↦ rw (e, wake_stopped)
      | inr ((p, rest), e) ↦
          rw (e, wake_stopped)
            (wake_step-population pid _ (λ q. record q { state = ready; stopped_by_signal = none })
              s p rest refl e)
    ]
