-- ===== src/Process/Scheduler/Ops.antt =====
-- The calls that the rest of the kernel makes of the scheduler, as data, with the part of the
-- timer interrupt of timer_preempt.rs that switches among them, and a history of such calls. `none` is a panic: nothing ready.
use rust_so_kernel.Prelude.{ℕ, Option, none, some, Bool, List, [], ◌∷◌, if◌then◌else◌}
use rust_so_kernel.Process.{Process, TrapFrame}
use rust_so_kernel.Process.Scheduler.{Scheduler, Machine, add_process}
use rust_so_kernel.Process.Scheduler.Switch.{
  kill_and_switch_tf, stop_and_switch_tf, block_current, switch_to_next,
}
use rust_so_kernel.Process.Scheduler.Wake.{wake, wake_with_retval, wake_stopped}
use rust_so_kernel.Process.Scheduler.Aging.{tick}
use rust_so_kernel.Process.Scheduler.Notify.{
  queue_signal_to_group, notify_child_death, notify_child_stopped, resolve_wait_status,
}

-- `for &pid in &wake_pids[..wake_count] { scheduler.wake(pid); }`
unfoldable pub wake_all : List ℕ → Scheduler → Scheduler
wake_all [] s = s
wake_all (pid ∷ pids) s = wake_all pids (wake pid s)

-- Steps 4 and 5 of `timer_preempt_handler` up to the switch: the wakeups, the tick, and the switch
-- at the end of a slice. The signals that are delivered after it are in `Signal`.
unfoldable pub timer_switch :
    (ℕ → Bool) → (ℕ × ℕ × ℕ → Bool) → List ℕ → TrapFrame → Machine → Option Machine
unfolding wake_all
timer_switch free_stack free_vma pids tf m =
    elim (tick free_stack free_vma (wake_all pids m.sched)) [
      | none ↦ none
      | some (expired, s) ↦
          let m' = record m { sched = s } in
          if expired then some (switch_to_next tf m') else some m'
    ]

pub data Op : Type 0 where
  adds : Process → Op
  timer : (ℕ → Bool) → (ℕ × ℕ × ℕ → Bool) → List ℕ → TrapFrame → Op
  blocks stops : TrapFrame → Op
  dies : Op
  wakes resumes : ℕ → Op
  wakes_with signals : ℕ → ℕ → Op
  child_died child_stopped : ℕ → Option ℕ → Op
  flushes : Op

abbrev on_sched : (Scheduler → Scheduler) → Machine → Option Machine
on_sched f m = some (record m { sched = f m.sched })

unfoldable pub step : Op → Machine → Option Machine
step (adds p) m = on_sched (add_process p) m
step (timer fs fv pids tf) m = timer_switch fs fv pids tf m
step (blocks tf) m = block_current tf m
step (stops tf) m = stop_and_switch_tf tf m
step dies m = kill_and_switch_tf m
step (wakes pid) m = on_sched (wake pid) m
step (resumes pid) m = on_sched (λ s. (wake_stopped pid s).1) m
step (wakes_with pid rax) m = on_sched (wake_with_retval pid rax) m
step (signals pgid sig) m = on_sched (queue_signal_to_group pgid sig) m
step (child_died child parent) m = on_sched (notify_child_death child parent) m
step (child_stopped child parent) m = on_sched (notify_child_stopped child parent) m
step flushes m = on_sched (λ s. (resolve_wait_status s).1) m

unfoldable pub run : List Op → Machine → Option Machine
run [] m = some m
run (op ∷ ops) m = elim (step op m) [ none ↦ none | some m' ↦ run ops m' ]
