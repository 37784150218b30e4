-- ===== src/Process/Scheduler/Dispatch.antt =====
-- What a context switch chooses and what it loads: the highest priority first, the oldest of that
-- priority, with its own registers, page table and stacks.
use rust_so_kernel.Prelude.{
  ℕ, ◌+◌, ◌≤◌, ◌≡◌, refl, some, List, [], ◌∷◌, arith, Option-cases, some_inj, inl, inr, subst, sym,
  ◌∙◌, ==_refl, ne→==, ℕ_discrete, dec_lt, All, ◌≢◌,
}
use rust_so_kernel.Process.{Process, running}
use rust_so_kernel.Process.Scheduler.{Scheduler, Machine, Cpu, pick, queue_index, quantum_for}
use rust_so_kernel.Process.Scheduler.Pick.{IsQueued, Queued, pick-Picked}
use rust_so_kernel.Process.Scheduler.Switch.{
  enter, load, update_current_fast, kill_current, kill_and_switch_tf,
}

-- The running process has a fresh slice, and nothing ready has a higher priority.
pub record IsHighest (s : Scheduler) (p : Process) : Type 0 where
  pub at_work : s.current ≡ some p
  pub slice : s.remaining_ticks ≡ 2 + p.effective_priority
  pub highest : (j : ℕ) → All (λ q. queue_index q ≤ queue_index p) (s.run_queues j)

weaken :
    (j k : ℕ) (ps : List Process) → j ≤ k → All (IsQueued j) ps → All (λ q. queue_index q ≤ k) ps
weaken j k [] h a = tt
weaken j k (p ∷ ps) h a = (omega (arith, a.0.1), weaken j k ps h a.1)

-- There is no queue past the last priority.
outside :
    (j k : ℕ) (ps : List Process) → 11 ≤ j → All (IsQueued j) ps → All (λ q. queue_index q ≤ k) ps
outside j k [] h a = tt
outside j k (p ∷ ps) h a = absurd (omega (arith, a.0.1))

pub enter-IsHighest :
    (restore : Process → Cpu → Cpu) (m m' : Machine)
    → enter restore m ≡ some m'
    → Queued m.sched.run_queues
    → (p : Process) × IsHighest m'.sched p
unfolding enter quantum_for
enter-IsHighest restore m m' h v = elim (Option-cases (pick 11 m.sched.run_queues)) [
  | inl e ↦ absurd (let h' = rw (e, enter) at h in cc)
  | inr ((p, queues), e) ↦
      let (k, rest, lt, at, upd, above) = pick-Picked 11 m.sched.run_queues p queues e in
      let front = rw at at (v k) in
      (
        record p { state = running },
        subst (λ (n : Machine). IsHighest n.sched (record p { state = running }))
            (some_inj (rw (e, enter) at h))
            (record {
              at_work = refl;
              slice = omega arith;
              highest = λ j. rw upd (elim (ℕ_discrete j k) [
                | yes same ↦
                    rw (same, ==_refl k)
                      (weaken k (queue_index p) rest (omega (arith, front.0.1)) front.1)
                | no other ↦ rw (ne→== j k other) (elim (dec_lt k j) [
                  | no below ↦
                      weaken j (queue_index p) (m.sched.run_queues j) (omega (arith, front.0.1))
                        (v j)
                  | yes up ↦ (elim (dec_lt j 11) [
                    | yes inside ↦ rw (above j up inside) tt
                    | no past ↦ outside j (queue_index p) (m.sched.run_queues j) (omega arith) (v j)
                  ])
                ])
              ]);
            }),
      )
]

-- The processor runs the process that the scheduler says, in its own context.
pub record IsLoaded (p : Process) (c : Cpu) : Type 0 where
  pub page_table : c.page_table ≡ p.address_space
  pub tss_stack : c.tss_stack ≡ p.kernel_stack
  pub fs_base : c.fs_base ≡ p.fs_base
  pub fpu : c.fpu ≡ p.fpu_state
  pub current_as : c.current_as ≡ p.address_space
  pub current_pid : c.current_pid ≡ p.pid

abbrev pub Loaded : Machine → Type 0
Loaded m = (p : Process) × (m.sched.current ≡ some p) × IsLoaded p m.cpu

-- `kill_and_switch_tf` activates the page table, the stack and the FPU state of the process that
-- runs next, but FS.base stays the dead process's.
pub kill_keeps_fs_base :
    (m m' : Machine) → kill_and_switch_tf m ≡ some m' → m'.cpu.fs_base ≡ m.cpu.fs_base
unfolding kill_and_switch_tf enter load update_current_fast
kill_keeps_fs_base m m' h = elim (Option-cases (pick 11 (kill_current m.sched).1.run_queues)) [
  | inl e ↦ absurd (let h' = rw (e, enter) at h in cc)
  | inr ((p, queues), e) ↦
      subst (λ (n : Machine). n.cpu.fs_base ≡ m.cpu.fs_base) (some_inj (rw (e, enter) at h)) refl
]

-- When `kill_and_switch_tf` runs a process whose FS.base differs from that of the process that died,
-- the processor is not in the context of the process that runs.
pub kill_loses_fs_base :
    (m m' : Machine) (p : Process)
    → kill_and_switch_tf m ≡ some m'
    → m'.sched.current ≡ some p
    → p.fs_base ≢ m.cpu.fs_base
    → ¬ IsLoaded p m'.cpu
kill_loses_fs_base m m' p h run ne loaded = ne (sym loaded.fs_base ∙ kill_keeps_fs_base m m' h)
