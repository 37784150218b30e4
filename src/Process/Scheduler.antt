-- ===== src/Process/Scheduler.antt =====
-- kernel/src/process/scheduler.rs: the run queues, the wait queue, and every move between them.
-- The eleven run queues are a function from their index. What a switch does to the processor
-- (page table, kernel stack, FS.base, FPU and the two fast-path cells) is the record `Cpu`.
pub mod Pick
pub mod Switch
pub mod Invariant
pub mod Wake
pub mod Census
pub mod Run
pub mod Dispatch
pub mod Aging
pub mod Told
pub mod Reaped
pub mod Ops
pub mod History
pub mod AgingCensus
pub mod Settled
pub mod Notify
use rust_so_kernel.Prelude.{
  ℕ, zero, suc, ◌+◌, ◌-◌, ◌*◌, ◌%◌, ◌^◌, ◌≡◌, Option, none, some, Bool, true, false, not, ◌&&◌,
  ◌||◌, List, [], ◌∷◌, ◌++◌, min, ◌==◌, ltb, if◌then◌else◌, update,
}
use rust_so_kernel.Process.{
  Process, TrapFrame, ProcessState, ready, running, blocked, zombie, stopped,
}

abbrev pub num_priorities : ℕ
num_priorities = 11

abbrev pub min_effective_priority : ℕ
min_effective_priority = 1

abbrev pub aging_epoch : ℕ
aging_epoch = 50

pub record Scheduler : Type 0 where
  pub run_queues : ℕ → List Process
  pub wait_queue : List Process
  pub current : Option Process
  pub remaining_ticks : ℕ
  pub global_ticks : ℕ
  pub next_pid : ℕ
  pub pending_stack_frees : List ℕ
  pub pending_vma_frees : List (ℕ × ℕ × ℕ)

-- What the scheduler sets on the processor: the active page table, `tss.rsp0`, FS.base, the FPU
-- registers, and `CURRENT_AS_PTR` with `CURRENT_PID_FAST`.
pub record Cpu : Type 0 where
  pub page_table : ℕ
  pub tss_stack : ℕ
  pub fs_base : ℕ
  pub fpu : ℕ
  pub current_as : ℕ
  pub current_pid : ℕ

pub record Machine : Type 0 where
  pub sched : Scheduler
  pub cpu : Cpu

-- `Scheduler::new`
unfoldable pub new : Scheduler
new = record {
  run_queues = λ _. [];
  wait_queue = [];
  current = none;
  remaining_ticks = 0;
  global_ticks = 0;
  next_pid = 1;
  pending_stack_frees = [];
  pending_vma_frees = [];
}

-- `quantum_for`: BASE_QUANTUM + effective_priority * PRIORITY_QUANTUM_BONUS
unfoldable pub quantum_for : ℕ → ℕ
quantum_for effective_priority = 2 + effective_priority * 1

unfoldable pub allocate_pid : Scheduler → ℕ × Scheduler
allocate_pid s = (s.next_pid, record s { next_pid = s.next_pid + 1 })

-- The queue in which a process waits its turn.
abbrev pub queue_index : Process → ℕ
queue_index p = min p.effective_priority 10

-- `self.run_queues[pri].push_back(proc)` at the index of the process.
unfoldable pub push_back : Process → (ℕ → List Process) → ℕ → List Process
push_back p queues = update queues (queue_index p) (queues (queue_index p) ++ p ∷ [])

unfoldable pub add_process : Process → Scheduler → Scheduler
unfolding push_back
add_process p s = record s {
  run_queues = push_back (record p { effective_priority = p.priority }) s.run_queues;
}

-- `for priority in (0..n).rev()`: the front of the highest queue below `n` that holds a process.
unfoldable pub pick : ℕ → (ℕ → List Process) → Option (Process × (ℕ → List Process))
pick zero queues = none
pick (suc n) queues = elim (queues n) [
  | [] ↦ pick n queues
  | p ∷ rest ↦ some (p, update queues n rest)
]
