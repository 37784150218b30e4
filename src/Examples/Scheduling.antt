-- ===== src/Examples/Scheduling.antt =====
-- The scheduler at concrete inputs.
use rust_so_kernel.Prelude.{
  ◌^◌, ◌≡◌, refl, none, some, true, List, [], ◌∷◌, ◌==◌, ◌&&◌, arith, if◌then◌else◌, find?, Cut,
  change_first, sum_below, ℕ_discrete, ne→==,
}
use rust_so_kernel.Process.{Process, zero_frame, new_user, running, blocked, zombie, any_child}
use rust_so_kernel.Prelude.Bits.{bit_set}
use rust_so_kernel.Process.Signal.{queue_signal}
use rust_so_kernel.Process.Scheduler.{
  Scheduler, Machine, Cpu, new, push_back, pick, quantum_for, add_process,
}
use rust_so_kernel.Process.Scheduler.Pick.{Queued}
use rust_so_kernel.Process.Scheduler.Invariant.{IsValid}
use rust_so_kernel.Process.Scheduler.Switch.{
  switch_to_next, block_current, kill_and_switch_tf, enter, put_away, requeue, decay, save, load,
  park, kill_current, bury, write_fs_base, update_current_fast, clear_current_fast,
}
use rust_so_kernel.Process.Scheduler.Dispatch.{IsLoaded, kill_loses_fs_base}
use rust_so_kernel.Process.Scheduler.Census.{population, count, count_queues}
use rust_so_kernel.Process.Scheduler.Run.{switch_to_next-population}
use rust_so_kernel.Process.Scheduler.Aging.{
  tick, tick_frees, retain_unfreed, count_down, age_processes, age_from, age_queue, turn, turns,
  needs_boost, boost,
}
use rust_so_kernel.Process.Scheduler.Notify.{
  signal_parent, awaits, notify_child_death, change_process, change_queues,
}
use rust_so_kernel.Process.Scheduler.Wake.{is_blocked}
use rust_so_kernel.Process.Scheduler.Reaped.{reaped, waitpid_answered}
use rust_so_kernel.Process.Scheduler.Ops.{Op, adds, timer, dies, run, step, timer_switch, wake_all}
use rust_so_kernel.Process.Scheduler.History.{timer_switch-IsValid}

abbrev shell : Process
unfolding new_user
shell = record (new_user 7 0x400000 0x7FFF_0000 0x9000 3 4 5) { fs_base = 0x1000 }

abbrev worker : Process
unfolding new_user
worker = record (new_user 8 0x400000 0x7FFF_0000 0xA000 6 4 5) {
  fs_base = 0x2000;
  effective_priority = 2;
}

abbrev idle : Process
unfolding new_user
idle = record (new_user 0 0 0 0 0 0 0) { priority = 0; effective_priority = 0 }

abbrev cpu : Cpu
cpu = record {
  page_table = 3;
  tss_stack = 0x9000;
  fs_base = 0x1000;
  fpu = 5;
  current_as = 3;
  current_pid = 7;
}

-- The shell runs, a worker that lost three priorities is ready, and so is the idle process.
abbrev busy : Machine
busy = record {
  sched = record {
    run_queues = λ j. if j == 2 then worker ∷ [] else if j == 0 then idle ∷ [] else [];
    wait_queue = [];
    current = some (record shell { state = running });
    remaining_ticks = 1;
    global_ticks = 49;
    next_pid = 9;
    pending_stack_frees = [];
    pending_vma_frees = [];
  };
  cpu = cpu;
}

busy-Queued : Queued busy.sched.run_queues
unfolding new_user
busy-Queued j = elim (ℕ_discrete j 2) [
  | yes e ↦ rw e ((refl, refl), tt)
  | no two ↦ (elim (ℕ_discrete j 0) [
    | yes e ↦ rw e ((refl, refl), tt)
    | no other ↦ rw (ne→== j 2 two, ne→== j 0 other) tt
  ])
]

busy-IsValid : IsValid busy.sched
unfolding new_user
busy-IsValid = record { queued = busy-Queued; waiting = tt; executing = refl }

abbrev shell_again : Process
shell_again = record shell { state = running; trapframe = zero_frame; effective_priority = 4 }

switch_to_next-population_example :
    population 8 (switch_to_next zero_frame busy).sched ≡ population 8 busy.sched
switch_to_next-population_example = switch_to_next-population 8 zero_frame busy

worker_is_there : population 8 busy.sched ≡ 1
unfolding population count count_queues sum_below new_user
worker_is_there = refl

abbrev after_block : Machine
unfolding block_current enter pick park save quantum_for load write_fs_base update_current_fast
    clear_current_fast new_user
after_block = elim (block_current zero_frame busy) [ none ↦ busy | some m ↦ m ]

abbrev after_kill : Machine
unfolding kill_and_switch_tf kill_current bury enter pick quantum_for load update_current_fast
    new_user
after_kill = elim (kill_and_switch_tf busy) [ none ↦ busy | some m ↦ m ]

kill_runs : kill_and_switch_tf busy ≡ some after_kill
unfolding after_kill
kill_runs = refl

-- The worker runs with the FS.base of the shell that died.
kill_loses_fs_base_example : ¬ IsLoaded (record worker { state = running }) after_kill.cpu
unfolding after_kill
kill_loses_fs_base_example =
    kill_loses_fs_base busy after_kill (record worker { state = running }) kill_runs refl
      (λ e. omega (arith, e))

abbrev aged : Scheduler
unfolding age_processes age_from age_queue turn turns needs_boost boost push_back new_user
aged = elim (age_processes busy.sched) [ none ↦ busy.sched | some s ↦ s ]

timer_switch-IsValid_example :
    (m' : Machine) × (timer_switch (λ _. true) (λ _. true) (7 ∷ []) zero_frame busy ≡ some m')
    × IsValid m'.sched
timer_switch-IsValid_example =
    timer_switch-IsValid (λ _. true) (λ _. true) (7 ∷ []) zero_frame busy busy-IsValid

-- The shell waits for any child, and its child 8 is a zombie with status 3.
abbrev parent : Process
unfolding new_user
parent = record shell { state = blocked; waiting_for = some any_child; waiting_status_ptr = 0x5000 }

abbrev child : Process
unfolding new_user
child = record worker { state = zombie; parent_pid = some 7; exit_status = 3 }

abbrev family : Scheduler
family = record (busy.sched) { wait_queue = parent ∷ child ∷ []; current = none }

abbrev told : Process
told = record parent { pending_signals = 2 ^ 17 }

waitpid_answered_example :
    (rest : List Process) × Cut
      (λ p. p.pid == 7 && is_blocked p)
      (signal_parent (some 7) family).wait_queue
      told
      rest
    × (notify_child_death 8 (some 7) family ≡ record (signal_parent (some 7) family) {
      wait_queue = rest;
      run_queues = push_back (reaped 8 child told) (signal_parent (some 7) family).run_queues;
    })
unfolding signal_parent change_process change_queues change_first queue_signal bit_set find? awaits
    new_user
waitpid_answered_example = waitpid_answered 8 7 family child told refl refl refl

-- A process is added, started by the timer, and dies.
abbrev history : List Op
history = adds idle ∷ adds shell ∷ timer (λ _. true) (λ _. true) [] zero_frame ∷ dies ∷ []

abbrev at_boot : Machine
unfolding new
at_boot = record { sched = new; cpu = cpu }

abbrev later : Machine
unfolding new run step add_process timer_switch wake_all tick tick_frees retain_unfreed count_down
    age_processes switch_to_next put_away requeue decay save push_back kill_and_switch_tf
    kill_current bury enter pick quantum_for load write_fs_base update_current_fast new_user
later = elim (run history at_boot) [ none ↦ at_boot | some m ↦ m ]
