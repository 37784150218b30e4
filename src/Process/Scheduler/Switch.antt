-- ===== src/Process/Scheduler/Switch.antt =====
-- kernel/src/process/scheduler.rs: the context switches, with what each does to the processor.
use rust_so_kernel.Prelude.{
  ℕ, zero, suc, ◌-◌, Option, none, some, Bool, true, false, not, ◌&&◌, List, [], ◌∷◌, ◌++◌, ◌==◌,
  ltb, if◌then◌else◌, update, remove_first,
}
use rust_so_kernel.Process.{
  Process, TrapFrame, ProcessState, ready, running, blocked, zombie, stopped,
}
use rust_so_kernel.Process.Scheduler.{
  Scheduler, Cpu, Machine, num_priorities, min_effective_priority, quantum_for, push_back, pick,
}

-- `update_current_fast` and `clear_current_fast`
unfoldable pub update_current_fast : Process → Cpu → Cpu
update_current_fast p c = record c { current_as = p.address_space; current_pid = p.pid }

unfoldable pub clear_current_fast : Cpu → Cpu
clear_current_fast c = record c { current_as = 0; current_pid = 0 }

-- `activate`, `set_kernel_stack`, `fpu::restore` and `update_current_fast`, which every switch does.
unfoldable pub load : Process → Cpu → Cpu
unfolding update_current_fast
load p c =
    update_current_fast p
      (record c { page_table = p.address_space; tss_stack = p.kernel_stack; fpu = p.fpu_state })

-- `write_fs_base(proc.fs_base)`
unfoldable pub write_fs_base : Process → Cpu → Cpu
write_fs_base p c = record c { fs_base = p.fs_base }

-- The three lines that save the outgoing process.
unfoldable pub save : TrapFrame → Cpu → Process → Process
save tf c p = record p { trapframe = tf; fs_base = c.fs_base; fpu_state = c.fpu }

-- The picked process becomes the running one, with a fresh quantum. `restore` is what the caller
-- does to the processor.
unfoldable pub enter : (Process → Cpu → Cpu) → Machine → Option Machine
unfolding quantum_for
enter restore m = elim (pick num_priorities m.sched.run_queues) [
  | none ↦ none
  | some (p, queues) ↦ some (record {
    sched = record (m.sched) {
      run_queues = queues;
      current = some (record p { state = running });
      remaining_ticks = quantum_for p.effective_priority;
    };
    cpu = restore p m.cpu;
  })
]

-- The restore of `block_current`, `stop_and_switch_tf` and `switch_to_next`, and that of
-- `kill_and_switch_tf` and `start_first`, which leaves FS.base alone.
abbrev pub restore_all : Process → Cpu → Cpu
restore_all p c = load p (write_fs_base p c)

-- `kill_current`: a thread is reaped at once, with its stacks queued; a process becomes a zombie.
unfoldable pub bury : Process → Scheduler → Scheduler
bury p s =
    if p.is_thread
    then record s {
      pending_stack_frees = s.pending_stack_frees ++ p.kernel_stack ∷ [];
      pending_vma_frees = elim p.owned_stack_vma [
        | none ↦ s.pending_vma_frees
        | some (start, size_pages) ↦
            s.pending_vma_frees ++ (p.address_space, start, size_pages) ∷ []
      ];
    }
    else record s { wait_queue = s.wait_queue ++ record p { state = zombie } ∷ [] }

unfoldable pub kill_current : Scheduler → Bool × Scheduler
unfolding bury
kill_current s = elim s.current [
  | none ↦ (false, s)
  | some p ↦ (true, bury p (record s { current = none }))
]

-- A switch that finds nothing ready panics: `none`.
unfoldable pub kill_and_switch_tf : Machine → Option Machine
unfolding kill_current load enter
kill_and_switch_tf m = enter load (record m { sched = (kill_current m.sched).1 })

-- The outgoing process is saved and parked in the wait queue with the state given.
unfoldable pub park : ProcessState → TrapFrame → Machine → Machine
unfolding save clear_current_fast
park st tf m = elim m.sched.current [
  | none ↦ record m { cpu = clear_current_fast m.cpu }
  | some p ↦ record {
    sched = record (m.sched) {
      current = none;
      wait_queue = m.sched.wait_queue ++ record (save tf m.cpu p) { state = st } ∷ [];
    };
    cpu = clear_current_fast m.cpu;
  }
]

unfoldable pub stop_and_switch_tf : TrapFrame → Machine → Option Machine
unfolding park load write_fs_base enter
stop_and_switch_tf tf m = enter restore_all (park stopped tf m)

unfoldable pub block_current : TrapFrame → Machine → Option Machine
unfolding park load write_fs_base enter
block_current tf m = enter restore_all (park blocked tf m)

-- Step 1 of `switch_to_next`: where the outgoing process goes.
unfoldable pub decay : Process → Process
decay p =
    if not (p.pid == 0) && ltb min_effective_priority p.effective_priority
    then record p { effective_priority = p.effective_priority - 1 }
    else p

unfoldable pub requeue : Process → Scheduler → Scheduler
unfolding decay push_back
requeue p s = elim p.state [
  | running ↦ record s { run_queues = push_back (decay (record p { state = ready })) s.run_queues }
  | ready ↦ record s { run_queues = push_back p s.run_queues }
  | _ ↦ record s { wait_queue = s.wait_queue ++ p ∷ [] }
]

unfoldable pub put_away : TrapFrame → Machine → Machine
unfolding requeue save
put_away tf m = elim m.sched.current [
  | none ↦ m
  | some p ↦ record m { sched = requeue (save tf m.cpu p) (record (m.sched) { current = none }) }
]

-- With nothing ready the caller's frame goes on: the machine is as the first step left it.
unfoldable pub switch_to_next : TrapFrame → Machine → Machine
unfolding put_away load write_fs_base enter
switch_to_next tf m = elim (enter restore_all (put_away tf m)) [
  | none ↦ put_away tf m
  | some m' ↦ m'
]

abbrev pub can_start : Process → Bool
can_start p = (elim p.state [ ready ↦ true | _ ↦ false ]) && not (p.pid == 0)

-- `for priority in (1..=n).rev()`: the first ready process of the highest queue, idle left out.
unfoldable pub pick_first : ℕ → (ℕ → List Process) → Option (Process × (ℕ → List Process))
unfolding remove_first
pick_first zero queues = none
pick_first (suc n) queues = elim (remove_first can_start (queues (suc n))) [
  | none ↦ pick_first n queues
  | some (p, rest) ↦ some (p, update queues (suc n) rest)
]

unfoldable pub start_first : Machine → Option Machine
unfolding pick_first load quantum_for
start_first m = elim (pick_first 10 m.sched.run_queues) [
  | none ↦ none
  | some (p, queues) ↦ some (record {
    sched = record (m.sched) {
      run_queues = queues;
      current = some (record p { state = running });
      remaining_ticks = quantum_for p.effective_priority;
    };
    cpu = load p m.cpu;
  })
]
