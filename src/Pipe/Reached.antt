-- ===== src/Pipe/Reached.antt =====
-- The pipes that calls of the two ends can lead to, whatever the scheduler and the memory hold at
-- each call.
use rust_so_kernel.Prelude.{
  ℕ, ◌+◌, ◌-◌, ◌%◌, ◌^◌, sym, ◌<◌, none, Bool, List, [], refl, arith, Bool-cases, Option-cases, inl,
  inr, ◌==◌, subst,
}
use rust_so_kernel.Pipe.{PipeBuffer, new_pipe}
use rust_so_kernel.Pipe.Ends.{
  World, read_pipe, write_pipe, drop_read_end, drop_write_end, dup_read_end, dup_write_end,
}
use rust_so_kernel.Pipe.Soundness.{
  IsSound, wake_reader-pipe, wake_writer_error-pipe, read_pipe-IsSound, write_pipe-IsSound,
}

drop_read_end-IsSound :
    (mapped : ℕ → ℕ → Bool) (w : World) → IsSound w.pipe → IsSound (drop_read_end mapped w).pipe
unfolding drop_read_end
drop_read_end-IsSound mapped w h =
    let pb = record (w.pipe) { readers = (w.pipe.readers + (2 ^ 32 - 1)) % 2 ^ 32 } in
    elim (Bool-cases (pb.readers == 0)) [
      | inl z ↦ (elim (Option-cases w.pipe.write_waiter) [
        | inl e ↦
            rw (drop_read_end, z, e)
              (record {
                head_below = h.head_below;
                len_within = h.len_within;
                reader = h.reader;
                writer = λ n. absurd (n e);
              })
        | inr (waiter, e) ↦
            let w' : World = record w { pipe = record pb { write_waiter = none } } in
            rw (drop_read_end, z, e)
              (subst IsSound (sym (wake_writer_error-pipe mapped waiter (2 ^ 64 - 32) w')) (record {
                head_below = h.head_below;
                len_within = h.len_within;
                reader = h.reader;
                writer = λ n. absurd (n refl);
              }))
      ])
      | inr more ↦
          rw (drop_read_end, more)
            (record {
              head_below = h.head_below;
              len_within = h.len_within;
              reader = h.reader;
              writer = λ n. ((h.writer n).0, ground arith);
            })
    ]

drop_write_end-IsSound :
    (mapped : ℕ → ℕ → Bool) (w : World) → IsSound w.pipe → IsSound (drop_write_end mapped w).pipe
unfolding drop_write_end
drop_write_end-IsSound mapped w h =
    let pb = record (w.pipe) { writers = (w.pipe.writers + (2 ^ 32 - 1)) % 2 ^ 32 } in
    elim (Bool-cases (pb.writers == 0)) [
      | inl z ↦ (elim (Option-cases w.pipe.read_waiter) [
        | inl e ↦
            rw (drop_write_end, z, e)
              (record {
                head_below = h.head_below;
                len_within = h.len_within;
                writer = h.writer;
                reader = λ n. absurd (n e);
              })
        | inr (waiter, e) ↦
            let w' : World = record w { pipe = record pb { read_waiter = none } } in
            rw (drop_write_end, z, e)
              (subst IsSound (sym (wake_reader-pipe mapped waiter [] w')) (record {
                head_below = h.head_below;
                len_within = h.len_within;
                writer = h.writer;
                reader = λ n. absurd (n refl);
              }))
      ])
      | inr more ↦
          rw (drop_write_end, more)
            (record {
              head_below = h.head_below;
              len_within = h.len_within;
              writer = h.writer;
              reader = λ n. ((h.reader n).0, ground arith);
            })
    ]

-- One call, on whatever world the pipe is part of. An end is duplicated below 2 ^ 32 of them.
pub data Step : PipeBuffer → PipeBuffer → Type 0 where
  read :
      (mapped : ℕ → ℕ → Bool) (addr size : ℕ) (w : World)
      → Step w.pipe (read_pipe mapped addr size w).1.pipe
  write :
      (mapped : ℕ → ℕ → Bool) (addr : ℕ) (buf : List ℕ) (w : World)
      → Step w.pipe (write_pipe mapped addr buf w).1.pipe
  drop_read : (mapped : ℕ → ℕ → Bool) (w : World) → Step w.pipe (drop_read_end mapped w).pipe
  drop_write : (mapped : ℕ → ℕ → Bool) (w : World) → Step w.pipe (drop_write_end mapped w).pipe
  dup_read : (pb : PipeBuffer) → pb.readers < 2 ^ 32 - 1 → Step pb (dup_read_end pb)
  dup_write : (pb : PipeBuffer) → pb.writers < 2 ^ 32 - 1 → Step pb (dup_write_end pb)

pub data Reached : PipeBuffer → Type 0 where
  create : Reached new_pipe
  call : {pb pb' : PipeBuffer} → Reached pb → Step pb pb' → Reached pb'

Step-IsSound : {pb pb' : PipeBuffer} → Step pb pb' → IsSound pb → IsSound pb'
unfolding dup_read_end dup_write_end
Step-IsSound (Step.read mapped addr size w) h = read_pipe-IsSound mapped addr size w h
Step-IsSound (Step.write mapped addr buf w) h = write_pipe-IsSound mapped addr buf w h
Step-IsSound (Step.drop_read mapped w) h = drop_read_end-IsSound mapped w h
Step-IsSound (Step.drop_write mapped w) h = drop_write_end-IsSound mapped w h
Step-IsSound (Step.dup_read pb lt) h = record {
  head_below = h.head_below;
  len_within = h.len_within;
  reader = h.reader;
  writer = λ n. ((h.writer n).0, omega arith);
}
Step-IsSound (Step.dup_write pb lt) h = record {
  head_below = h.head_below;
  len_within = h.len_within;
  reader = λ n. ((h.reader n).0, omega arith);
  writer = h.writer;
}

-- Whatever calls of read, write, drop and dup a pipe has seen, its ring is within its bounds, a
-- reader waits only on an empty pipe that has a write end, and a writer only on a full one that has
-- a read end.
pub Reached-IsSound : (pb : PipeBuffer) → Reached pb → IsSound pb
unfolding new_pipe
Reached-IsSound pb Reached.create = record {
  head_below = omega arith;
  len_within = omega arith;
  reader = λ n. absurd (n refl);
  writer = λ n. absurd (n refl);
}
Reached-IsSound pb (Reached.call {pb = before} r s) = Step-IsSound s (Reached-IsSound before r)
