-- ===== src/Pipe/Handover.antt =====
-- The way of a write's bytes to a reader that is blocked on the pipe.
use rust_so_kernel.Prelude.{
  ℕ, zero, suc, ◌+◌, ◌-◌, ◌/◌, ◌%◌, ◌≡◌, ◌≤◌, ◌∙◌, ap, some, Bool, true, refl, arith, Bool-cases,
  inl, inr, ◌==◌, min, find?, taken, Cut-remove_first, find?-test,
}
use rust_so_kernel.Process.{Process}
use rust_so_kernel.Process.Scheduler.Wake.{wake_with_retval}
use rust_so_kernel.Process.Scheduler.Reaped.{wake_removed}
use rust_so_kernel.Pipe.Ends.{World, Memory, copied, deliver_and_wake, is_sleeper, set_rax}

-- Where every page has a frame, everything is copied.
pub copied-all :
    (mapped : ℕ → Bool) (every : (page : ℕ) → mapped page ≡ true) (fuel vaddr left : ℕ)
    → left ≤ fuel
    → copied mapped fuel vaddr left ≡ left
unfolding copied
copied-all mapped every zero vaddr left le = omega arith
copied-all mapped every (suc fuel) vaddr left le =
    let chunk = min left (0x1000 - vaddr % 0x1000) in
    let rest = copied-all mapped every fuel (vaddr + chunk) (left - chunk) in
    elim (Bool-cases (left == 0)) [
      | inl z ↦ rw z (ground arith)
      | inr nz ↦
          rw (nz, every (vaddr / 0x1000))
            (ap (λ k. chunk + k) (rest (ground arith)) ∙ (omega arith))
    ]

-- The wakeup with a result is `wake_with_retval`.
pub deliver_and_wake-wake_with_retval :
    (mapped : ℕ → ℕ → Bool) (pid : ℕ) (f : Process → Memory → ℕ × Memory) (w : World) (p : Process)
    → find? (is_sleeper pid) w.sched.wait_queue ≡ some p
    → deliver_and_wake mapped pid f w ≡ record w {
      sched = wake_with_retval pid (f p w.memory).0 w.sched;
      memory = (f p w.memory).1;
    }
unfolding deliver_and_wake wake_with_retval
deliver_and_wake-wake_with_retval mapped pid f w p found =
    let rax = (f p w.memory).0 in
    let hit = find?-test (is_sleeper pid) w.sched.wait_queue p found in
    let t =
      taken (is_sleeper pid) (is_sleeper pid) (set_rax rax) p (λ x e. e) hit hit w.sched.wait_queue
        found in
    rw
      (
        deliver_and_wake,
        found,
        t.change,
        wake_removed pid (record (w.sched) { wait_queue = t.changed }) (set_rax rax p) t.rest
            t.remove,
        wake_with_retval,
        Cut-remove_first t.cut,
      )
      refl
