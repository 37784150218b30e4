-- ===== src/Timers/Order.antt =====
-- The timers stay in the order of their expiry, and a tick fires just those that have expired.
use rust_so_kernel.Prelude.{
  ℕ, zero, suc, ◌+◌, ◌-◌, ◌≡◌, ◌≤◌, ◌<◌, sym, ◌∙◌, refl, ap, arith, Bool, List, [], ◌∷◌, All,
  Bool-cases, Option-cases, inl, inr, ◌⊎◌, ltb, leb, ltb→lt, leb→le, lt→ltb, ◌==◌, if◌then◌else◌,
  take, remove_first, remove_first-Cut, Cut, Cut-All, subst,
}
use rust_so_kernel.Timers.{
  HrTimer, HrTimerAction, HrTimerQueue, wake_pid, kernel_fn, no_timers, insert, start, cancel,
  drain, tick,
}

-- In the order of expiry.
abbrev pub Sorted : List HrTimer → Type 0
Sorted [] = Unit
Sorted (t ∷ ts) = All (λ (u : HrTimer). t.expiry_ns ≤ u.expiry_ns) ts × Sorted ts

insert-All :
    (P : HrTimer → Type 0) (t : HrTimer) (ts : List HrTimer) → P t → All P ts → All P (insert t ts)
unfolding insert
insert-All P t [] p a = (p, tt)
insert-All P t (u ∷ us) p a = elim (Bool-cases (leb u.expiry_ns t.expiry_ns)) [
  | inl le ↦ rw (insert, le) (a.0, insert-All P t us p a.1)
  | inr gt ↦ rw (insert, gt) (p, a)
]

All-lower :
    (m n : ℕ) (ts : List HrTimer)
    → m ≤ n
    → All (λ (u : HrTimer). n ≤ u.expiry_ns) ts
    → All (λ (u : HrTimer). m ≤ u.expiry_ns) ts
All-lower m n [] le a = tt
All-lower m n (t ∷ ts) le a = (let h = a.0 in omega arith, All-lower m n ts le a.1)

insert-Sorted : (t : HrTimer) (ts : List HrTimer) → Sorted ts → Sorted (insert t ts)
unfolding insert
insert-Sorted t [] s = (tt, tt)
insert-Sorted t (u ∷ us) s = elim (Bool-cases (leb u.expiry_ns t.expiry_ns)) [
  | inl le ↦
      rw (insert, le)
        (
          insert-All (λ v. u.expiry_ns ≤ v.expiry_ns) t us (leb→le u.expiry_ns t.expiry_ns le) s.0,
          insert-Sorted t us s.1,
        )
  | inr gt ↦
      let lt : t.expiry_ns ≤ u.expiry_ns = ground arith in
      rw (insert, gt) ((lt, All-lower t.expiry_ns u.expiry_ns us lt s.0), s)
]

Cut-Sorted :
    {test : HrTimer → Bool} {ts : List HrTimer} {t : HrTimer} {rest : List HrTimer}
    → Cut test ts t rest
    → Sorted ts
    → Sorted rest
Cut-Sorted (Cut.front t ts e) s = s.1
Cut-Sorted (Cut.later t u ts rest e c) s =
    ((Cut-All (λ (v : HrTimer). t.expiry_ns ≤ v.expiry_ns) c s.0).1, Cut-Sorted c s.1)

-- The timers that have expired, and the others.
unfoldable pub expired : ℕ → List HrTimer → List HrTimer
expired now [] = []
expired now (t ∷ ts) = if ltb now t.expiry_ns then expired now ts else t ∷ expired now ts

unfoldable pub pending : ℕ → List HrTimer → List HrTimer
pending now [] = []
pending now (t ∷ ts) = if ltb now t.expiry_ns then t ∷ pending now ts else pending now ts

unfoldable pub pids_of : List HrTimer → List ℕ
pids_of [] = []
pids_of (t ∷ ts) = elim t.action [ wake_pid pid ↦ pid ∷ pids_of ts | kernel_fn f ↦ pids_of ts ]

unfoldable pub calls_of : List HrTimer → List ℕ
calls_of [] = []
calls_of (t ∷ ts) = elim t.action [ wake_pid pid ↦ calls_of ts | kernel_fn f ↦ f ∷ calls_of ts ]

later-none :
    (now : ℕ) (ts : List HrTimer)
    → All (λ (u : HrTimer). now < u.expiry_ns) ts
    → (expired now ts ≡ []) × (pending now ts ≡ ts)
unfolding expired pending
later-none now [] a = (refl, refl)
later-none now (t ∷ ts) a =
    let (e, p) = later-none now ts a.1 in
    let lt = lt→ltb now t.expiry_ns a.0 in (rw lt e, rw lt (ap (λ l. t ∷ l) p))

action-cases :
    (a : HrTimerAction) → ((pid : ℕ) × (a ≡ wake_pid pid)) ⊎ ((f : ℕ) × (a ≡ kernel_fn f))
action-cases (wake_pid pid) = inl (pid, refl)
action-cases (kernel_fn f) = inr (f, refl)

take-none {ℓ} : {A : Type ℓ} (n : ℕ) → ◌≡◌ {A = List A} (take n []) []
take-none zero = refl
take-none (suc n) = refl

strictly-later :
    (now n : ℕ) (ts : List HrTimer)
    → now < n
    → All (λ (u : HrTimer). n ≤ u.expiry_ns) ts
    → All (λ (u : HrTimer). now < u.expiry_ns) ts
strictly-later now n [] lt a = tt
strictly-later now n (t ∷ ts) lt a = (let h = a.0 in omega arith, strictly-later now n ts lt a.1)

-- What `drain` collects of sorted timers.
abbrev Drained : ℕ → ℕ → List HrTimer → Type 0
Drained now count ts =
    ((drain now count ts).pids ≡ take (8 - count) (pids_of (expired now ts)))
    × ((drain now count ts).calls ≡ calls_of (expired now ts))
    × ((drain now count ts).left ≡ pending now ts)

drain-Drained : (now count : ℕ) (ts : List HrTimer) → Sorted ts → Drained now count ts
unfolding drain expired pending pids_of calls_of
drain-Drained now count [] s = (sym (take-none (8 - count)), refl, refl)
drain-Drained now count (t ∷ ts) s = elim (Bool-cases (ltb now t.expiry_ns)) [
  | inl late ↦
      let (none_yet, all_left) =
        later-none now ts (strictly-later now t.expiry_ns ts (ltb→lt now t.expiry_ns late) s.0) in
      rw (drain, expired, pending, late, none_yet, all_left)
        (sym (take-none (8 - count)), refl, refl)
  | inr early ↦ (elim (action-cases t.action) [
    | inr (f, e) ↦
        let (pids, calls, left) = drain-Drained now count ts s.1 in
        rw (drain, expired, pending, early, pids_of, calls_of, e)
          (pids, ap (λ l. f ∷ l) calls, left)
    | inl (pid, e) ↦ (elim (Bool-cases (ltb count 8)) [
      | inl room ↦
          let (pids, calls, left) = drain-Drained now (count + 1) ts s.1 in
          let one : 8 - count ≡ suc (8 - (count + 1)) = ground arith in
          rw (drain, expired, pending, early, pids_of, calls_of, e, room, one)
            (ap (λ l. pid ∷ l) pids, calls, left)
      | inr full ↦
          let (pids, calls, left) = drain-Drained now count ts s.1 in
          let zero_left : 8 - count ≡ 0 = ground arith in
          rw (drain, expired, pending, early, pids_of, calls_of, e, full, zero_left)
            (pids ∙ ap (λ k. take k (pids_of (expired now ts))) zero_left, calls, left)
    ])
  ])
]

-- A tick on timers in the order of expiry leaves those that expire later than now and removes the
-- others; it calls the functions of all that it removes, in their order, and wakes the processes of
-- the first eight that have one: the wakeups beyond the eighth are gone.
pub tick-expired :
    (now : ℕ) (q : HrTimerQueue)
    → Sorted q.timers
    → ((tick now q).0.pids ≡ take 8 (pids_of (expired now q.timers)))
      × ((tick now q).0.calls ≡ calls_of (expired now q.timers))
      × ((tick now q).1.timers ≡ pending now q.timers)
unfolding tick
tick-expired now q s = drain-Drained now 0 q.timers s

pending-All :
    (P : HrTimer → Type 0) (now : ℕ) (ts : List HrTimer) → All P ts → All P (pending now ts)
unfolding pending
pending-All P now [] a = tt
pending-All P now (t ∷ ts) a = elim (Bool-cases (ltb now t.expiry_ns)) [
  | inl late ↦ rw (pending, late) (a.0, pending-All P now ts a.1)
  | inr early ↦ rw (pending, early) (pending-All P now ts a.1)
]

pending-Sorted : (now : ℕ) (ts : List HrTimer) → Sorted ts → Sorted (pending now ts)
unfolding pending
pending-Sorted now [] s = tt
pending-Sorted now (t ∷ ts) s = elim (Bool-cases (ltb now t.expiry_ns)) [
  | inl late ↦
      rw (pending, late)
        (
          pending-All (λ (u : HrTimer). t.expiry_ns ≤ u.expiry_ns) now ts s.0,
          pending-Sorted now ts s.1,
        )
  | inr early ↦ rw (pending, early) (pending-Sorted now ts s.1)
]

-- The queues that calls lead to.
pub data Reached : HrTimerQueue → Type 0 where
  boot : Reached no_timers
  starts :
      (expiry_ns : ℕ) (action : HrTimerAction) (q : HrTimerQueue)
      → Reached q
      → Reached (start expiry_ns action q).1
  cancels : (id : ℕ) (q : HrTimerQueue) → Reached q → Reached (cancel id q).1
  ticks : (now : ℕ) (q : HrTimerQueue) → Reached q → Reached (tick now q).1

cancel-Sorted : (id : ℕ) (q : HrTimerQueue) → Sorted q.timers → Sorted (cancel id q).1.timers
unfolding cancel
cancel-Sorted id q s = elim (Option-cases (remove_first (λ (t : HrTimer). t.id == id) q.timers)) [
  | inl e ↦ rw (cancel, e) s
  | inr ((t, rest), e) ↦
      rw (cancel, e)
        (Cut-Sorted (remove_first-Cut (λ (t : HrTimer). t.id == id) q.timers t rest e) s)
]

-- After any starts, cancellations and ticks the timers are in the order of their expiry.
pub Reached-Sorted : (q : HrTimerQueue) → Reached q → Sorted q.timers
unfolding no_timers start tick
Reached-Sorted q Reached.boot = tt
Reached-Sorted q (Reached.starts expiry_ns action before r) =
    insert-Sorted (record { id = before.next_id; expiry_ns = expiry_ns; action = action })
      before.timers (Reached-Sorted before r)
Reached-Sorted q (Reached.cancels id before r) = cancel-Sorted id before (Reached-Sorted before r)
Reached-Sorted q (Reached.ticks now before r) =
    let s = Reached-Sorted before r in
    subst Sorted (sym (tick-expired now before s).2) (pending-Sorted now before.timers s)
