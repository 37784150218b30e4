-- ===== src/Process/Scheduler/Wake.antt =====
-- kernel/src/process/scheduler.rs: the moves from the wait queue back to the run queues.
use rust_so_kernel.Prelude.{ℕ, none, some, Bool, true, false, ◌&&◌, ◌==◌, remove_first}
use rust_so_kernel.Process.{Process, ready, blocked, stopped}
use rust_so_kernel.Process.Scheduler.{Scheduler, push_back}

abbrev pub is_blocked : Process → Bool
is_blocked p = elim p.state [ blocked ↦ true | _ ↦ false ]

abbrev pub is_stopped : Process → Bool
is_stopped p = elim p.state [ stopped ↦ true | _ ↦ false ]

unfoldable pub wake : ℕ → Scheduler → Scheduler
unfolding remove_first push_back
wake pid s = elim (remove_first (λ p. p.pid == pid && is_blocked p) s.wait_queue) [
  | none ↦ s
  | some (p, rest) ↦ record s {
    wait_queue = rest;
    run_queues = push_back (record p { state = ready }) s.run_queues;
  }
]

unfoldable pub wake_with_retval : ℕ → ℕ → Scheduler → Scheduler
unfolding remove_first push_back
wake_with_retval pid rax s = elim (remove_first (λ p. p.pid == pid && is_blocked p) s.wait_queue) [
  | none ↦ s
  | some (p, rest) ↦
      let tf = record (p.trapframe) { rax = rax } in
      record s {
        wait_queue = rest;
        run_queues = push_back (record p { trapframe = tf; state = ready }) s.run_queues;
      }
]

unfoldable pub wake_stopped : ℕ → Scheduler → Bool × Scheduler
unfolding remove_first push_back
wake_stopped pid s = elim (remove_first (λ p. p.pid == pid && is_stopped p) s.wait_queue) [
  | none ↦ (false, s)
  | some (p, rest) ↦ (
    true,
    record s {
      wait_queue = rest;
      run_queues = push_back (record p { state = ready; stopped_by_signal = none }) s.run_queues;
    },
  )
]
