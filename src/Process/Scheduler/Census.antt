-- ===== src/Process/Scheduler/Census.antt =====
-- No operation of the scheduler loses a process or makes one up: how often each pid stands in the
-- run queues, the wait queue and the running slot.
use rust_so_kernel.Prelude.{
  ℕ, ◌+◌, ◌<◌, ◌≡◌, ap, Option, none, some, Bool, List, [], ◌∷◌, ◌++◌, update, arith, ==_refl,
  ne→==, ◌==◌, if◌then◌else◌, sum_below, sum_below_change, Cut, Changed,
}
use rust_so_kernel.Process.{Process}
use rust_so_kernel.Process.Scheduler.{Scheduler, push_back, queue_index, pick}
use rust_so_kernel.Process.Scheduler.Pick.{pick-Picked}

-- The pid's share of one process, of a list, of an optional process.
abbrev pub one : ℕ → Process → ℕ
one pid p = if p.pid == pid then 1 else 0

pub one-cong : (pid : ℕ) (p q : Process) → p.pid ≡ q.pid → one pid p ≡ one pid q
one-cong pid p q e = rw e

unfoldable pub count : ℕ → List Process → ℕ
count pid [] = 0
count pid (p ∷ ps) = one pid p + count pid ps

abbrev pub count_current : ℕ → Option Process → ℕ
count_current pid none = 0
count_current pid (some p) = one pid p

unfoldable pub count_queues : ℕ → (ℕ → List Process) → ℕ
count_queues pid queues = sum_below 11 (λ j. count pid (queues j))

unfoldable pub population : ℕ → Scheduler → ℕ
population pid s =
    count_queues pid s.run_queues + count pid s.wait_queue + count_current pid s.current

pub count-append :
    (pid : ℕ) (xs ys : List Process) → count pid (xs ++ ys) ≡ count pid xs + count pid ys
unfolding count
count-append pid [] ys = omega arith
count-append pid (p ∷ xs) ys = omega (arith, count-append pid xs ys)

pub count-snoc :
    (pid : ℕ) (xs : List Process) (p : Process)
    → count pid (xs ++ p ∷ []) ≡ count pid xs + one pid p
unfolding count
count-snoc pid xs p = omega (arith, count-append pid xs (p ∷ []))

-- Writing one queue changes the sum by what the queue gained or lost.
pub count_queues-update :
    (pid k : ℕ) (l : List Process) (queues : ℕ → List Process)
    → k < 11
    → count_queues pid (update queues k l) + count pid (queues k)
      ≡ count_queues pid queues + count pid l
unfolding count_queues
count_queues-update pid k l queues lt =
    let h =
      sum_below_change 11 k (λ j. count pid (queues j)) (λ j. count pid (update queues k l j)) lt
        (λ j ne. rw (ne→== j k ne)) in
    let h' = rw (==_refl k) at h in omega (arith, h')

pub count_queues-push_back :
    (pid : ℕ) (p : Process) (queues : ℕ → List Process)
    → count_queues pid (push_back p queues) ≡ count_queues pid queues + one pid p
unfolding push_back
count_queues-push_back pid p queues = omega (
  arith,
  count_queues-update pid (queue_index p) (queues (queue_index p) ++ p ∷ []) queues (omega arith),
  count-snoc pid (queues (queue_index p)) p,
)

pub count_queues-pick :
    (pid : ℕ) (queues : ℕ → List Process) (p : Process) (queues' : ℕ → List Process)
    → pick 11 queues ≡ some (p, queues')
    → count_queues pid queues' + one pid p ≡ count_queues pid queues
unfolding count
count_queues-pick pid queues p queues' h =
    let (k, rest, lt, at, out, above) = pick-Picked 11 queues p queues' h in
    rw out (omega (arith, count_queues-update pid k rest queues lt, ap (count pid) at))

pub count-Cut :
    {test : Process → Bool} {xs : List Process} {p : Process} {rest : List Process} (pid : ℕ)
    → Cut test xs p rest
    → count pid rest + one pid p ≡ count pid xs
unfolding count
count-Cut pid (Cut.front x xs e) = omega arith
count-Cut pid (Cut.later x y xs rest e c) = omega (arith, count-Cut pid c)

pub count-Changed :
    {test : Process → Bool} {f : Process → Process} {xs : List Process} {p : Process}
    {ys : List Process} (pid : ℕ)
    → ((q : Process) → (f q).pid ≡ q.pid)
    → Changed test f xs p ys
    → count pid ys ≡ count pid xs
unfolding count
count-Changed pid keep (Changed.front x xs e) = rw (keep x)
count-Changed pid keep (Changed.later x y xs ys e c) = rw (count-Changed pid keep c)
