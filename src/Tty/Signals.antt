-- ===== src/Tty/Signals.antt =====
-- What a control character does to the processes of the foreground group, and to the others.
use rust_so_kernel.Prelude.{
  ℕ, ◌≡◌, ◌≢◌, ◌∙◌, refl, none, some, true, false, ◌&&◌, List, [], ◌∷◌, map, Bool-cases,
  Option-cases, inl, inr, ◌==◌, ne→==, leb, if◌then◌else◌, ◌⊎◌, some_inj, subst, ◌||◌, get_or,
}
use rust_so_kernel.Prelude.Bits.{bit_test, bit_test-bit_set}
use rust_so_kernel.Process.{Process, num_signals}
use rust_so_kernel.Process.Signal.{queue_signal}
use rust_so_kernel.Process.Scheduler.{Scheduler}
use rust_so_kernel.Process.Scheduler.Notify.{signal_if, queue_signal_to_group}
use rust_so_kernel.Tty.{Termios, has_isig, control_signal, feed_input, vintr, vquit, vsusp}

-- One process before and after: in the group it has the signal pending as well.
pub record Marked (pgid sig : ℕ) (p p' : Process) : Type 0 where
  pub pid : p'.pid ≡ p.pid
  pub state : p'.state ≡ p.state
  pub pending :
      (j : ℕ)
      → bit_test j p'.pending_signals
        ≡ (if p.pgid == pgid && (j == sig) then true else bit_test j p.pending_signals)

-- The processes of two lists in turn.
pub data Pointwise (R : Process → Process → Type 0) : List Process → List Process → Type 0 where
  nobody : Pointwise R [] []
  next :
      {p p' : Process} {ps ps' : List Process}
      → R p p'
      → Pointwise R ps ps'
      → Pointwise R (p ∷ ps) (p' ∷ ps')

-- The scheduler before and after.
pub record Signalled (pgid sig : ℕ) (s s' : Scheduler) : Type 0 where
  pub run_queues : (j : ℕ) → Pointwise (Marked pgid sig) (s.run_queues j) (s'.run_queues j)
  pub wait_queue : Pointwise (Marked pgid sig) s.wait_queue s'.wait_queue
  pub current :
      (s.current ≡ none) × (s'.current ≡ none)
      ⊎ ((p p' : Process) × (s.current ≡ some p) × (s'.current ≡ some p') × Marked pgid sig p p')

signal_if-Marked :
    (pgid sig : ℕ) (p : Process)
    → (sig == 0 || leb num_signals sig) ≡ false
    → Marked pgid sig p (signal_if pgid sig p)
unfolding signal_if queue_signal
signal_if-Marked pgid sig p ok = elim (Bool-cases (p.pgid == pgid)) [
  | inl group ↦
      rw (signal_if, queue_signal, group, ok)
        (record {
          pid = refl;
          state = refl;
          pending = λ j. bit_test-bit_set sig j p.pending_signals ∙ rw group refl;
        })
  | inr other ↦
      rw (signal_if, other) (record { pid = refl; state = refl; pending = λ j. rw other refl })
]

map-Pointwise :
    (R : Process → Process → Type 0) (f : Process → Process)
    → ((p : Process) → R p (f p))
    → (ps : List Process) → Pointwise R ps (map f ps)
map-Pointwise R f h [] = Pointwise.nobody
map-Pointwise R f h (p ∷ ps) = Pointwise.next (h p) (map-Pointwise R f h ps)

queue_signal_to_group-Signalled :
    (pgid sig : ℕ) (s : Scheduler)
    → (sig == 0 || leb num_signals sig) ≡ false
    → Signalled pgid sig s (queue_signal_to_group pgid sig s)
unfolding queue_signal_to_group
queue_signal_to_group-Signalled pgid sig s ok = record {
  run_queues = λ j.
      map-Pointwise (Marked pgid sig) (signal_if pgid sig) (λ p. signal_if-Marked pgid sig p ok)
        (s.run_queues j);
  wait_queue =
      map-Pointwise (Marked pgid sig) (signal_if pgid sig) (λ p. signal_if-Marked pgid sig p ok)
        s.wait_queue;
  current = elim (Option-cases s.current) [
    | inl e ↦ inl (e, rw e refl)
    | inr (p, e) ↦ inr (p, signal_if pgid sig p, e, rw e refl, signal_if-Marked pgid sig p ok)
  ];
}

-- The signals of the control characters are signals that are queued.
control_signal-queued :
    (t : Termios) (byte sig : ℕ)
    → control_signal t byte ≡ some sig
    → (sig == 0 || leb num_signals sig) ≡ false
unfolding control_signal
control_signal-queued t byte sig h =
    let queues : ℕ → Type 0 = λ n. (n == 0 || leb num_signals n) ≡ false in
    elim (Bool-cases (byte == get_or t.c_cc vintr 0)) [
      | inl intr ↦ subst queues (some_inj (rw (control_signal, intr) at h)) refl
      | inr other ↦ (elim (Bool-cases (byte == get_or t.c_cc vquit 0)) [
        | inl quit ↦ subst queues (some_inj (rw (control_signal, other, quit) at h)) refl
        | inr still ↦ (elim (Bool-cases (byte == get_or t.c_cc vsusp 0)) [
          | inl susp ↦ subst queues (some_inj (rw (control_signal, other, still, susp) at h)) refl
          | inr plain ↦ absurd (let h' = rw (control_signal, other, still, plain) at h in cc)
        ])
      ])
    ]

-- With ISIG set and a foreground group, a control character is not queued as input, and leaves the
-- signal it stands for pending in every process of that group, wherever the scheduler holds it, and
-- every other process's pending signals as they were.
pub feed_input-Signalled :
    (t : Termios) (pgid byte sig : ℕ) (s : Scheduler)
    → has_isig t ≡ true
    → control_signal t byte ≡ some sig
    → pgid ≢ 0
    → ((feed_input t pgid byte s).0 ≡ false) × Signalled pgid sig s (feed_input t pgid byte s).1
unfolding feed_input
feed_input-Signalled t pgid byte sig s isig control group =
    rw (feed_input, isig, control, ne→== pgid 0 group)
      (refl, queue_signal_to_group-Signalled pgid sig s (control_signal-queued t byte sig control))
