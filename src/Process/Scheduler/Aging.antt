-- ===== src/Process/Scheduler/Aging.antt =====
-- kernel/src/process/scheduler.rs: `age_processes` and `tick`. The inner loop is over the cut of a
-- queue at its index `i`: `done` is `run_queues[pri][..i]` and `rest` is `run_queues[pri][i..]`.
use rust_so_kernel.Prelude.{
  ℕ, zero, suc, ◌+◌, ◌-◌, ◌%◌, ◌^◌, Option, none, some, Bool, not, ◌&&◌, List, [], ◌∷◌, ◌++◌, min,
  ◌==◌, ltb, if◌then◌else◌, update,
}
use rust_so_kernel.Process.{Process}
use rust_so_kernel.Process.Scheduler.{
  Scheduler, num_priorities, aging_epoch, push_back, queue_index,
}

-- `effective_priority < priority`, and not the idle process.
unfoldable pub needs_boost : Process → Bool
needs_boost p = not (p.pid == 0) && ltb p.effective_priority p.priority

unfoldable pub boost : Process → Process
boost p = record p { effective_priority = min (p.effective_priority + 1) p.priority }

-- One turn of the inner loop, at the process `p` of index `i`.
unfoldable pub turn :
    ℕ
    → List Process
    → Process
    → List Process
    → (ℕ → List Process)
    → List Process × List Process × (ℕ → List Process)
unfolding needs_boost boost push_back
turn pri done p rest queues =
    if needs_boost p
    then if queue_index (boost p) == pri
      then (done, rest ++ boost p ∷ [], queues)
      else (done, rest, push_back (boost p) queues)
    else (done ++ p ∷ [], rest, queues)

-- `none` is a run out of fuel.
unfoldable pub age_queue :
    ℕ → ℕ → List Process → List Process → (ℕ → List Process) → Option (ℕ → List Process)
unfolding turn
age_queue fuel pri done [] queues = some (update queues pri done)
age_queue zero pri done (p ∷ rest) queues = none
age_queue (suc fuel) pri done (p ∷ rest) queues =
    let (done', rest', queues') = turn pri done p rest queues in
    age_queue fuel pri done' rest' queues'

-- The turns that a queue takes at most: one for each process and for each boost.
unfoldable pub turns : List Process → ℕ
turns [] = 0
turns (p ∷ ps) = 1 + (p.priority - p.effective_priority) + turns ps

-- `for pri in pri..pri + n`
unfoldable pub age_from : ℕ → ℕ → (ℕ → List Process) → Option (ℕ → List Process)
unfolding age_queue turns
age_from zero pri queues = some queues
age_from (suc n) pri queues = elim (age_queue (turns (queues pri)) pri [] (queues pri) queues) [
  | none ↦ none
  | some queues' ↦ age_from n (suc pri) queues'
]

unfoldable pub age_processes : Scheduler → Option Scheduler
unfolding age_from
age_processes s = elim (age_from num_priorities 0 s.run_queues) [
  | none ↦ none
  | some queues ↦ some (record s { run_queues = queues })
]

-- `retain(|x| !free(x))`
unfoldable pub retain_unfreed {ℓ} : {A : Type ℓ} → (A → Bool) → List A → List A
retain_unfreed free [] = []
retain_unfreed free (x ∷ xs) = if free x then retain_unfreed free xs else x ∷ retain_unfreed free xs

-- `tick`, up to the aging pass. The two tests say whether the buddy allocator's lock was free.
unfoldable pub tick_frees : (ℕ → Bool) → (ℕ × ℕ × ℕ → Bool) → Scheduler → Scheduler
unfolding retain_unfreed
tick_frees free_stack free_vma s = record s {
  global_ticks = (s.global_ticks + 1) % 2 ^ 32;
  pending_stack_frees = retain_unfreed free_stack s.pending_stack_frees;
  pending_vma_frees = retain_unfreed free_vma s.pending_vma_frees;
}

-- The end of `tick`: whether the slice is used up.
unfoldable pub count_down : Scheduler → Bool × Scheduler
count_down s = let left = s.remaining_ticks - 1 in (left == 0, record s { remaining_ticks = left })

unfoldable pub tick : (ℕ → Bool) → (ℕ × ℕ × ℕ → Bool) → Scheduler → Option (Bool × Scheduler)
unfolding tick_frees count_down age_processes
tick free_stack free_vma s =
    let s' = tick_frees free_stack free_vma s in
    if s'.global_ticks % aging_epoch == 0
    then (elim (age_processes s') [ none ↦ none | some aged ↦ some (count_down aged) ])
    else some (count_down s')
