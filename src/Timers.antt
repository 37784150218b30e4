-- ===== src/Timers.antt =====
-- kernel/src/time/hrtimer.rs: the queue of timers, the soonest first.
pub mod Order
use rust_so_kernel.Prelude.{
  ℕ, ◌+◌, ◌%◌, ◌^◌, Option, none, some, Bool, true, false, List, [], ◌∷◌, max, ◌==◌, ltb, leb,
  if◌then◌else◌, remove_first,
}

-- A kernel function is the number that identifies it.
pub data HrTimerAction : Type 0 where
  wake_pid : ℕ → HrTimerAction
  kernel_fn : ℕ → HrTimerAction

pub record HrTimer : Type 0 where
  pub id : ℕ
  pub expiry_ns : ℕ
  pub action : HrTimerAction

pub record HrTimerQueue : Type 0 where
  pub timers : List HrTimer
  pub next_id : ℕ

-- `HrTimerQueue::new`
unfoldable pub no_timers : HrTimerQueue
no_timers = record { timers = []; next_id = 1 }

-- `insert` at the `partition_point` of `t.expiry_ns <= expiry_ns`: behind those that expire no later.
unfoldable pub insert : HrTimer → List HrTimer → List HrTimer
insert t [] = t ∷ []
insert t (u ∷ us) = if leb u.expiry_ns t.expiry_ns then u ∷ insert t us else t ∷ u ∷ us

unfoldable pub start : ℕ → HrTimerAction → HrTimerQueue → ℕ × HrTimerQueue
unfolding insert
start expiry_ns action q =
    let t : HrTimer = record { id = q.next_id; expiry_ns = expiry_ns; action = action } in
    (q.next_id, record { timers = insert t q.timers; next_id = max ((q.next_id + 1) % 2 ^ 32) 1 })

unfoldable pub cancel : ℕ → HrTimerQueue → Bool × HrTimerQueue
unfolding remove_first
cancel id q = elim (remove_first (λ t. t.id == id) q.timers) [
  | none ↦ (false, q)
  | some (t, rest) ↦ (true, record q { timers = rest })
]

-- What the loop of `tick` collects: the PIDs of `pids_out`, and the functions that it calls.
pub record Fired : Type 0 where
  pub pids : List ℕ
  pub calls : List ℕ
  pub left : List HrTimer

-- `while let Some(t) = q.timers.first()`, with `count` PIDs collected before.
unfoldable pub drain : ℕ → ℕ → List HrTimer → Fired
drain now count [] = record { pids = []; calls = []; left = [] }
drain now count (t ∷ ts) =
    let rest = drain now count ts in
    let rest' = drain now (count + 1) ts in
    if ltb now t.expiry_ns
    then record { pids = []; calls = []; left = t ∷ ts }
    else (elim t.action [
      | kernel_fn f ↦ record rest { calls = f ∷ rest.calls }
      | wake_pid pid ↦ if ltb count 8 then record rest' { pids = pid ∷ rest'.pids } else rest
    ])

-- `tick`: the PIDs to wake, with the functions called.
unfoldable pub tick : ℕ → HrTimerQueue → Fired × HrTimerQueue
unfolding drain
tick now q = let fired = drain now 0 q.timers in (fired, record q { timers = fired.left })
