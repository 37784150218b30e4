-- ===== src/Process/Scheduler/Reaped.antt =====
-- A parent blocked in `waitpid` for a child that dies goes back to its run queue with the child's
-- pid as its result and the child's status to be written.
use rust_so_kernel.Prelude.{
  ℕ, ◌≡◌, refl, ap, none, some, Bool, true, false, List, arith, ◌∙◌, ◌==◌, ◌&&◌, find?,
  remove_first, Cut, taken,
}
use rust_so_kernel.Process.{Process, ready, wait_status_word}
use rust_so_kernel.Process.Scheduler.{Scheduler, push_back}
use rust_so_kernel.Process.Scheduler.Wake.{wake, is_blocked}
use rust_so_kernel.Process.Scheduler.Notify.{
  is_zombie, signal_parent, awaits, answer, answer_waiter, notify_child_death,
}

abbrev pub is_waiting : ℕ → Process → Bool
is_waiting pid p = p.pid == pid && is_blocked p

awaits-waiting :
    (parent child pgid : ℕ) (p : Process)
    → is_waiting parent p ≡ false
    → awaits (some parent) child pgid p ≡ false
unfolding awaits
awaits-waiting parent child pgid p h = ground arith

awaits-pid :
    (parent child pgid : ℕ) (p : Process)
    → awaits (some parent) child pgid p ≡ true
    → (p.pid ≡ parent) × (is_waiting parent p ≡ true)
unfolding awaits
awaits-pid parent child pgid p h = ground arith

-- What the parent looks like when it is ready again.
abbrev pub reaped : ℕ → Process → Process → Process
reaped child dead w = record w {
  state = ready;
  trapframe = record (w.trapframe) { rax = child };
  waiting_for = none;
  pending_wait_status = some (wait_status_word dead);
}

pub wake_removed :
    (pid : ℕ) (s : Scheduler) (p : Process) (rest : List Process)
    → remove_first (is_waiting pid) s.wait_queue ≡ some (p, rest)
    → wake pid s ≡ record s {
      wait_queue = rest;
      run_queues = push_back (record p { state = ready }) s.run_queues;
    }
unfolding wake
wake_removed pid s p rest e = rw (wake, e) refl

-- With the child a zombie and the parent the first blocked process of its pid, in a `waitpid` that
-- the child answers, `notify_child_death` queues SIGCHLD, takes the parent out of the wait queue,
-- and puts it at the end of its run queue with the child's pid in rax and the child's status.
pub waitpid_answered :
    (child parent : ℕ) (s : Scheduler) (dead w : Process)
    → find? (λ p. p.pid == child && is_zombie p) (signal_parent (some parent) s).wait_queue
      ≡ some dead
    → find? (is_waiting parent) (signal_parent (some parent) s).wait_queue ≡ some w
    → awaits (some parent) child dead.pgid w ≡ true
    → (rest : List Process) × Cut
        (is_waiting parent)
        (signal_parent (some parent) s).wait_queue
        w
        rest
      × (notify_child_death child (some parent) s ≡ record (signal_parent (some parent) s) {
        wait_queue = rest;
        run_queues = push_back (reaped child dead w) (signal_parent (some parent) s).run_queues;
      })
unfolding notify_child_death answer_waiter answer
waitpid_answered child parent s dead w zombie waits hit =
    let s' = signal_parent (some parent) s in
    let (same, still) = awaits-pid parent child dead.pgid w hit in
    let t =
      taken (awaits (some parent) child dead.pgid) (is_waiting parent)
        (answer child (wait_status_word dead)) w (awaits-waiting parent child dead.pgid) hit still
        s'.wait_queue waits in
    (
      t.rest,
      t.cut,
      rw (notify_child_death, zombie)
          (rw (answer_waiter, t.change, t.found)
            (ap (λ (k : ℕ). wake k (record s' { wait_queue = t.changed })) same
              ∙ wake_removed parent (record s' { wait_queue = t.changed }) _ t.rest t.remove)),
    )
