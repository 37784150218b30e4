-- ===== src/Pipe/Soundness.antt =====
-- What a pipe keeps over every call of its ends: nobody sleeps on it who could go on.
use rust_so_kernel.Prelude.{
  ℕ, ◌≡◌, sym, ◌≢◌, ◌≤◌, ◌<◌, Option, none, some, Bool, List, min, length, take, change_first, refl,
  arith, Bool-cases, Option-cases, inl, inr, ltb, ◌==◌, find?, subst, ltb→lt,
}
use rust_so_kernel.Process.{Process}
use rust_so_kernel.Pipe.{PipeBuffer, PipeWaiter, try_read, try_write, pipe_capacity}
use rust_so_kernel.Pipe.Ends.{
  World, Memory, copy_to_user, is_sleeper, set_rax, deliver_and_wake, wake_reader,
  collect_from_writer, wake_writer_error, refill, read_pipe, hand_over, write_pipe,
}

-- The ring is within its bounds; a waiting reader found it empty, and somebody can still write; a
-- waiting writer found it full, and somebody can still read.
pub record IsSound (pb : PipeBuffer) : Type 0 where
  pub head_below : pb.head < 4096
  pub len_within : pb.len ≤ 4096
  pub reader : pb.read_waiter ≢ none → (pb.len ≡ 0) × (0 < pb.writers)
  pub writer : pb.write_waiter ≢ none → (pb.len ≡ 4096) × (0 < pb.readers)

-- A wakeup leaves the pipe as it is.
pub deliver_and_wake-pipe :
    (mapped : ℕ → ℕ → Bool) (pid : ℕ) (f : Process → Memory → ℕ × Memory) (w : World)
    → (deliver_and_wake mapped pid f w).pipe ≡ w.pipe
unfolding deliver_and_wake
deliver_and_wake-pipe mapped pid f w =
    elim (Option-cases (find? (is_sleeper pid) w.sched.wait_queue)) [
      | inl e ↦ rw (deliver_and_wake, e) refl
      | inr (p, e) ↦
          (elim (Option-cases
            (change_first (is_sleeper pid) (set_rax (f p w.memory).0) w.sched.wait_queue)) [
              | inl e' ↦ rw (deliver_and_wake, e, e') refl
              | inr (ps, e') ↦ rw (deliver_and_wake, e, e') refl
            ])
    ]

pub wake_reader-pipe :
    (mapped : ℕ → ℕ → Bool) (waiter : PipeWaiter) (bytes : List ℕ) (w : World)
    → (wake_reader mapped waiter bytes w).pipe ≡ w.pipe
unfolding wake_reader
wake_reader-pipe mapped waiter bytes w =
    deliver_and_wake-pipe mapped waiter.pid
      (λ p. copy_to_user mapped p waiter.user_buf (take (min (length bytes) waiter.count) bytes)) w

pub collect_from_writer-pipe :
    (mapped : ℕ → ℕ → Bool) (waiter : PipeWaiter) (size : ℕ) (w : World)
    → (collect_from_writer mapped waiter size w).1.pipe ≡ w.pipe
unfolding collect_from_writer
collect_from_writer-pipe mapped waiter size w =
    deliver_and_wake-pipe mapped waiter.pid
      (λ p mem. (length (collect_from_writer mapped waiter size w).0, mem)) w

pub wake_writer_error-pipe :
    (mapped : ℕ → ℕ → Bool) (waiter : PipeWaiter) (errno : ℕ) (w : World)
    → (wake_writer_error mapped waiter errno w).pipe ≡ w.pipe
unfolding wake_writer_error
wake_writer_error-pipe mapped waiter errno w =
    deliver_and_wake-pipe mapped waiter.pid (λ p mem. (errno, mem)) w

-- A ring within its bounds on which nobody waits.
pub bounded-IsSound :
    (pb : PipeBuffer)
    → pb.head < 4096
    → pb.len ≤ 4096
    → pb.read_waiter ≡ none
    → pb.write_waiter ≡ none
    → IsSound pb
bounded-IsSound pb lt le r w = record {
  head_below = lt;
  len_within = le;
  reader = λ n. absurd (n r);
  writer = λ n. absurd (n w);
}

-- Bytes written where nobody waits.
try_write-IsSound :
    (buf : List ℕ) (pb : PipeBuffer)
    → IsSound pb
    → pb.read_waiter ≡ none
    → pb.write_waiter ≡ none
    → IsSound (try_write buf pb).1
unfolding try_write
try_write-IsSound buf pb h r w =
    bounded-IsSound _ h.head_below (let k = h.len_within in omega arith) r w

refill-IsSound :
    (mapped : ℕ → ℕ → Bool) (waiter : Option PipeWaiter) (w : World)
    → IsSound w.pipe
    → w.pipe.read_waiter ≡ none
    → w.pipe.write_waiter ≡ none
    → IsSound (refill mapped waiter w).pipe
unfolding refill
refill-IsSound mapped none w h r e = h
refill-IsSound mapped (some waiter) w h r e =
    subst (λ pb. IsSound (try_write (collect_from_writer mapped waiter pipe_capacity w).0 pb).1)
      (sym (collect_from_writer-pipe mapped waiter pipe_capacity w))
      (try_write-IsSound (collect_from_writer mapped waiter pipe_capacity w).0 w.pipe h r e)

no_reader : (pb : PipeBuffer) → IsSound pb → 0 < pb.len → pb.read_waiter ≡ none
no_reader pb h lt = elim (Option-cases pb.read_waiter) [
  | inl e ↦ e
  | inr (r, e) ↦ absurd (let k = h.reader (λ n. cc) in omega (arith, k.0))
]

pub read_pipe-IsSound :
    (mapped : ℕ → ℕ → Bool) (addr size : ℕ) (w : World)
    → IsSound w.pipe
    → IsSound (read_pipe mapped addr size w).1.pipe
unfolding read_pipe try_read
read_pipe-IsSound mapped addr size w h = elim (Bool-cases (size == 0)) [
  | inl z ↦ rw (read_pipe, z) h
  | inr nz ↦ (elim (Bool-cases (ltb 0 w.pipe.len)) [
    | inl lt ↦
        let r = no_reader w.pipe h (ltb→lt 0 w.pipe.len lt) in
        rw (read_pipe, nz, lt)
          (refill-IsSound mapped w.pipe.write_waiter _
            (bounded-IsSound _ (omega arith) (let k = h.len_within in omega arith) r refl) r refl)
    | inr ge ↦ (elim (Bool-cases (w.pipe.writers == 0)) [
      | inl z ↦ rw (read_pipe, nz, ge, z) h
      | inr writable ↦
          rw (read_pipe, nz, ge, writable)
            (record {
              head_below = h.head_below;
              len_within = h.len_within;
              reader = λ n. (ground arith, ground arith);
              writer = h.writer;
            })
    ])
  ])
]

hand_over-IsSound :
    (mapped : ℕ → ℕ → Bool) (waiter : Option PipeWaiter) (w : World)
    → IsSound w.pipe
    → w.pipe.read_waiter ≡ none
    → w.pipe.write_waiter ≡ none
    → IsSound (hand_over mapped waiter w).pipe
unfolding hand_over try_read
hand_over-IsSound mapped none w h r e = h
hand_over-IsSound mapped (some waiter) w h r e =
    let (bytes, pb) = try_read pipe_capacity w.pipe in
    subst IsSound (sym (wake_reader-pipe mapped waiter bytes (record w { pipe = pb })))
      (bounded-IsSound pb (omega arith) (let k = h.len_within in omega arith) r e)

no_writer : (pb : PipeBuffer) → IsSound pb → pb.len < 4096 → pb.write_waiter ≡ none
no_writer pb h lt = elim (Option-cases pb.write_waiter) [
  | inl e ↦ e
  | inr (r, e) ↦ absurd (let k = h.writer (λ n. cc) in omega (arith, k.0))
]

pub write_pipe-IsSound :
    (mapped : ℕ → ℕ → Bool) (addr : ℕ) (buf : List ℕ) (w : World)
    → IsSound w.pipe
    → IsSound (write_pipe mapped addr buf w).1.pipe
unfolding write_pipe try_write
write_pipe-IsSound mapped addr buf w h =
    let n = (try_write buf w.pipe).0 in
    elim (Bool-cases (length buf == 0)) [
      | inl z ↦ rw (write_pipe, z) h
      | inr nz ↦ (elim (Bool-cases (w.pipe.readers == 0)) [
        | inl z ↦ rw (write_pipe, nz, z) h
        | inr readable ↦ (elim (Bool-cases (ltb 0 n)) [
          | inl lt ↦
              rw (write_pipe, nz, readable, lt)
                (let quiet : w.pipe.write_waiter ≡ none =
                    no_writer w.pipe h (let k = ltb→lt 0 n lt in omega arith) in
                  hand_over-IsSound mapped w.pipe.read_waiter _
                    (bounded-IsSound _ h.head_below (let k = h.len_within in omega arith) refl
                      quiet)
                    refl quiet)
          | inr ge ↦
              let empty : n ≡ 0 = ground arith in
              let some_byte : 0 < length buf = ground arith in
              let le = h.len_within in
              rw (write_pipe, nz, readable, ge)
                (record {
                  head_below = h.head_below;
                  len_within = let k = h.len_within in omega arith;
                  reader = λ ne. let k = h.reader ne in (omega (arith, k.0), k.1);
                  writer = λ ne. (omega arith, ground arith);
                })
        ])
      ])
    ]
