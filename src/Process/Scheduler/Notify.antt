-- ===== src/Process/Scheduler/Notify.antt =====
-- kernel/src/process/scheduler.rs: signals to other processes, and what a parent in `waitpid` is
-- told when a child dies or stops.
use rust_so_kernel.Prelude.{
  ℕ, zero, suc, ◌/◌, ◌%◌, Option, none, some, Bool, true, false, ◌&&◌, List, [], ◌∷◌, map, ◌==◌,
  if◌then◌else◌, is_some_of, update, find?, change_first,
}
use rust_so_kernel.Process.{Process, zombie, matches, wait_status_word, stop_status_word}
use rust_so_kernel.Process.Signal.{queue_signal, sigchld}
use rust_so_kernel.Process.Scheduler.{Scheduler, num_priorities}
use rust_so_kernel.Process.Scheduler.Wake.{wake, is_blocked, is_stopped}

abbrev pub is_zombie : Process → Bool
is_zombie p = elim p.state [ zombie ↦ true | _ ↦ false ]

-- The loop of `find_process_mut` over the run queues from `pri` on.
unfoldable pub change_queues :
    ℕ → ℕ → (Process → Bool) → (Process → Process) → (ℕ → List Process) → Option (ℕ → List Process)
unfolding change_first
change_queues zero pri test f queues = none
change_queues (suc n) pri test f queues = elim (change_first test f (queues pri)) [
  | some qs ↦ some (update queues pri qs)
  | none ↦ change_queues n (suc pri) test f queues
]

-- `find_process_mut(pid)`, and the change made to what it finds, if anything.
unfoldable pub change_process : ℕ → (Process → Process) → Scheduler → Scheduler
unfolding change_queues
change_process pid f s = elim (change_queues num_priorities 0 (λ p. p.pid == pid) f s.run_queues) [
  | some queues ↦ record s { run_queues = queues }
  | none ↦ (elim (change_first (λ p. p.pid == pid) f s.wait_queue) [
    | some ps ↦ record s { wait_queue = ps }
    | none ↦ s
  ])
]

-- `queue_signal_to_group`
unfoldable pub signal_if : ℕ → ℕ → Process → Process
unfolding queue_signal
signal_if pgid sig p = if p.pgid == pgid then queue_signal sig p else p

unfoldable pub queue_signal_to_group : ℕ → ℕ → Scheduler → Scheduler
unfolding signal_if
queue_signal_to_group pgid sig s = record s {
  current = elim s.current [ none ↦ none | some p ↦ some (signal_if pgid sig p) ];
  run_queues = λ j. map (signal_if pgid sig) (s.run_queues j);
  wait_queue = map (signal_if pgid sig) s.wait_queue;
}

-- SIGCHLD for the parent: the running process, or whichever queue holds it.
unfoldable pub signal_parent : Option ℕ → Scheduler → Scheduler
unfolding change_process queue_signal
signal_parent none s = s
signal_parent (some parent) s = elim s.current [
  | none ↦ change_process parent (queue_signal sigchld) s
  | some p ↦
      if p.pid == parent
      then record s { current = some (queue_signal sigchld p) }
      else change_process parent (queue_signal sigchld) s
]

-- Whether the process is the parent, blocked in a `waitpid` that the child answers.
unfoldable pub awaits : Option ℕ → ℕ → ℕ → Process → Bool
awaits parent child pgid p =
    is_some_of p.pid parent
    && is_blocked p
    && (elim p.waiting_for [ none ↦ false | some target ↦ matches target child pgid ])

-- `waiting_options & WUNTRACED != 0`
unfoldable pub is_untraced : Process → Bool
is_untraced p = p.waiting_options / 4 % 2 == 1

unfoldable pub answer : ℕ → ℕ → Process → Process
answer child status p = record p {
  trapframe = record (p.trapframe) { rax = child };
  waiting_for = none;
  pending_wait_status = some status;
}

-- The scan for the waiter, with its wakeup. `after` is what happens between the two.
unfoldable pub answer_waiter :
    (Process → Bool) → ℕ → ℕ → (List Process → List Process) → Scheduler → Scheduler
unfolding find? change_first answer wake
answer_waiter test child status after s =
    elim (change_first test (answer child status) s.wait_queue) [
      | none ↦ s
      | some ps ↦ (elim (find? test s.wait_queue) [
        | none ↦ s
        | some waker ↦ wake waker.pid (record s { wait_queue = after ps })
      ])
    ]

unfoldable pub notify_child_death : ℕ → Option ℕ → Scheduler → Scheduler
unfolding signal_parent find? answer_waiter awaits wait_status_word
notify_child_death child parent s =
    let s' = signal_parent parent s in
    let dead = find? (λ p. p.pid == child && is_zombie p) s'.wait_queue in
    let status : ℕ = elim dead [ none ↦ 0x200 | some p ↦ wait_status_word p ] in
    let pgid : ℕ = elim dead [ none ↦ 0 | some p ↦ p.pgid ] in
    answer_waiter (awaits parent child pgid) child status (λ ps. ps) s'

-- `stop_reported = true` on the first process of that pid.
unfoldable pub mark_reported : ℕ → List Process → List Process
mark_reported pid [] = []
mark_reported pid (p ∷ ps) =
    if p.pid == pid then record p { stop_reported = true } ∷ ps else p ∷ mark_reported pid ps

unfoldable pub notify_child_stopped : ℕ → Option ℕ → Scheduler → Scheduler
unfolding signal_parent find? answer_waiter awaits is_untraced mark_reported stop_status_word
notify_child_stopped child parent s =
    let s' = signal_parent parent s in
    elim (find? (λ p. p.pid == child && is_stopped p) s'.wait_queue) [
      | none ↦ s'
      | some p ↦
          answer_waiter (λ q. is_untraced q && awaits parent child p.pgid q) child
            (stop_status_word p) (mark_reported child) s'
    ]

-- `resolve_wait_status`: the word that is written to user memory, if any, with its address.
unfoldable pub resolve_wait_status : Scheduler → Option (ℕ × ℕ) × Scheduler
resolve_wait_status s = elim s.current [
  | none ↦ (none, s)
  | some p ↦ (elim p.pending_wait_status [
    | none ↦ (none, s)
    | some status ↦ (
      if p.waiting_status_ptr == 0 then none else some (p.waiting_status_ptr, status),
      record s { current = some (record p { pending_wait_status = none; waiting_status_ptr = 0 }) },
    )
  ])
]
