-- ===== src/Ipc/Ring.antt =====
-- The message ring of a channel against a queue of at most sixteen messages.
use rust_so_kernel.Prelude.{
  ℕ, suc, ◌+◌, ◌-◌, ◌%◌, ◌≡◌, ◌≤◌, ◌<◌, sym, ◌∙◌, refl, ap, ap₂, arith, Option, none, some, Bool,
  true, false, List, [], ◌∷◌, ◌++◌, Bool-cases, inl, inr, if◌then◌else◌, ◌==◌, length, window,
  Wraps, window-wrapped, fill, ==→eq, window-fill, length-window,
}
use rust_so_kernel.Ipc.{Message, RingBuf, ring_cap, new_ring, push, pop, is_full, is_empty}

abbrev pub ring_slot : ℕ → ℕ
ring_slot i = i % 16

ring_slot-Wraps : Wraps 16 ring_slot
ring_slot-Wraps = record {
  absorbs = λ start i. omega arith;
  apart = λ start i j lt le e. omega arith;
}

pub record IsRing (r : RingBuf) : Type 0 where
  pub head_below : r.head < 16
  pub len_within : r.len ≤ 16
  pub tail_at : r.tail ≡ (r.head + r.len) % 16

-- The messages in the ring, the oldest first.
unfoldable pub queued : RingBuf → List Message
queued r = window ring_slot r.buf r.head r.len

unfoldable pub push_queue : Message → List Message → Bool × List Message
push_queue msg q = if length q == ring_cap then (false, q) else (true, q ++ msg ∷ [])

unfoldable pub pop_queue : List Message → Option Message × List Message
pop_queue [] = (none, [])
pop_queue (msg ∷ q) = (some msg, q)

push-IsRing : (msg : Message) (r : RingBuf) → IsRing r → IsRing (push msg r).1
unfolding push
push-IsRing msg r h = elim (Bool-cases (is_full r)) [
  | inl full ↦ rw (push, full) h
  | inr room ↦
      let len_within = h.len_within in
      let tail_at = h.tail_at in
      rw (push, room)
        (record { head_below = h.head_below; len_within = ground arith; tail_at = omega arith })
]

pop-IsRing : (r : RingBuf) → IsRing r → IsRing (pop r).1
unfolding pop
pop-IsRing r h = elim (Bool-cases (is_empty r)) [
  | inl empty ↦ rw (pop, empty) h
  | inr more ↦
      let len_within = h.len_within in
      let tail_at = h.tail_at in
      rw (pop, more)
        (record { head_below = omega arith; len_within = omega arith; tail_at = ground arith })
]

push-queue :
    (msg : Message) (r : RingBuf)
    → IsRing r
    → ((push msg r).0, queued (push msg r).1) ≡ push_queue msg (queued r)
unfolding push push_queue queued fill
push-queue msg r h =
    let size = length-window ring_slot r.buf r.head r.len in
    elim (Bool-cases (is_full r)) [
      | inl full ↦ rw (push, push_queue, full, size, full) refl
      | inr room ↦
          let le = h.len_within in
          rw (push, push_queue, room, size, room, h.tail_at)
            (ap (λ q. (true, q))
              (window-fill ring_slot ring_slot-Wraps r.buf r.head r.len (msg ∷ []) (ground arith)))
    ]

pop-queue : (r : RingBuf) → IsRing r → ((pop r).0, queued (pop r).1) ≡ pop_queue (queued r)
unfolding pop pop_queue queued window
pop-queue r h = elim (Bool-cases (is_empty r)) [
  | inl empty ↦
      let nothing : queued r ≡ [] = ap (window ring_slot r.buf r.head) (==→eq r.len 0 empty) in
      rw (pop, empty) (ap (λ q. (none, q)) nothing ∙ sym (ap pop_queue nothing))
  | inr more ↦
      let at_head = h.head_below in
      let one : r.len ≡ suc (r.len - 1) = ground arith in
      let front : queued r ≡ r.buf r.head ∷ window ring_slot r.buf ((r.head + 1) % 16) (r.len - 1) =
        ap (window ring_slot r.buf r.head) one
        ∙ ap₂ ◌∷◌ (ap r.buf (omega arith))
            (sym (window-wrapped ring_slot ring_slot-Wraps r.buf (r.head + 1) (r.len - 1))) in
      rw (pop, more) (sym (ap pop_queue front))
]

-- A client's calls of a channel, and what each returns.
pub data RingOp : Type 0 where
  pushes : Message → RingOp
  pops : RingOp

pub data RingOut : Type 0 where
  pushed : Bool → RingOut
  popped : Option Message → RingOut

-- What a sequence of calls returns, on the ring and on the queue.
unfoldable pub run_ring : List RingOp → RingBuf → List RingOut
unfolding push pop
run_ring [] r = []
run_ring (pushes msg ∷ ops) r = let (sent, r') = push msg r in pushed sent ∷ run_ring ops r'
run_ring (pops ∷ ops) r = let (msg, r') = pop r in popped msg ∷ run_ring ops r'

unfoldable pub run_queue : List RingOp → List Message → List RingOut
unfolding push_queue pop_queue
run_queue [] q = []
run_queue (pushes msg ∷ ops) q = let (sent, q') = push_queue msg q in pushed sent ∷ run_queue ops q'
run_queue (pops ∷ ops) q = let (msg, q') = pop_queue q in popped msg ∷ run_queue ops q'

run_ring-run_queue :
    (ops : List RingOp) (r : RingBuf) → IsRing r → run_ring ops r ≡ run_queue ops (queued r)
unfolding run_ring run_queue
run_ring-run_queue [] r h = refl
run_ring-run_queue (pushes msg ∷ ops) r h =
    ap (λ l. pushed (push msg r).0 ∷ l)
      (run_ring-run_queue ops (push msg r).1 (push-IsRing msg r h))
    ∙ ap (λ (t : Bool × List Message). pushed t.0 ∷ run_queue ops t.1) (push-queue msg r h)
run_ring-run_queue (pops ∷ ops) r h =
    ap (λ l. popped (pop r).0 ∷ l) (run_ring-run_queue ops (pop r).1 (pop-IsRing r h))
    ∙ ap (λ (t : Option Message × List Message). popped t.0 ∷ run_queue ops t.1) (pop-queue r h)

-- Any sequence of pushes and pops of a new ring returns what a first-in first-out queue of at most
-- sixteen messages returns: nothing is lost, repeated or reordered, and a push fails just when
-- sixteen messages are waiting.
pub new_ring-run_queue : (ops : List RingOp) → run_ring ops new_ring ≡ run_queue ops []
unfolding new_ring queued window
new_ring-run_queue ops =
    run_ring-run_queue ops new_ring
      (record { head_below = omega arith; len_within = omega arith; tail_at = omega arith })
