-- ===== src/Examples/Pipes.antt =====
-- Pipes at concrete inputs.
use rust_so_kernel.Prelude.{◌%◌, ◌+◌, ◌≡◌, refl, some, true, [], ◌∷◌, arith, window}
use rust_so_kernel.Process.{Process, new_user, blocked}
use rust_so_kernel.Process.Scheduler.{new}
use rust_so_kernel.Pipe.{PipeWaiter, new_pipe}
use rust_so_kernel.Pipe.Contents.{contents}
use rust_so_kernel.Pipe.Ends.{World, ok, err, would_block, read_pipe, write_pipe}
use rust_so_kernel.Pipe.Soundness.{IsSound}
use rust_so_kernel.Pipe.Reached.{Reached, Step, Reached-IsSound}
use rust_so_kernel.Pipe.Transfer.{read_queue, write_queue, read_pipe-queue, write_pipe-queue}

abbrev reader : Process
unfolding new_user
reader = record (new_user 7 0x400000 0x7FFF_0000 0x9000 3 4 5) { state = blocked }

abbrev asking : PipeWaiter
asking = record { pid = 7; user_buf = 0x5000; count = 2 }

-- An empty pipe, whose reader asked for two bytes and sleeps.
abbrev awaited : World
unfolding new_pipe new
awaited = record {
  pipe = record new_pipe { read_waiter = some asking };
  sched = record new { wait_queue = reader ∷ [] };
  memory = λ space addr. 0;
}

-- A pipe with two bytes, of which the ring wraps round between them.
abbrev wrapped : World
unfolding new_pipe new
wrapped = record awaited { pipe = record new_pipe { cells = λ i. i + 1; head = 4095; len = 2 } }

wrapped_contents : contents wrapped.pipe ≡ 4096 ∷ 1 ∷ []
unfolding contents window new_pipe wrapped
wrapped_contents = refl

write_pipe-queue_example :
    (
      (write_pipe (λ _ _. true) 0x6000 (5 ∷ 6 ∷ []) wrapped).0,
      contents (write_pipe (λ _ _. true) 0x6000 (5 ∷ 6 ∷ []) wrapped).1.pipe,
    )
    ≡ write_queue (5 ∷ 6 ∷ []) wrapped.pipe.readers (contents wrapped.pipe)
unfolding new_pipe wrapped
write_pipe-queue_example =
    write_pipe-queue (λ _ _. true) 0x6000 (5 ∷ 6 ∷ []) wrapped (omega arith) refl

read_pipe-queue_example :
    (
      (read_pipe (λ _ _. true) 0x6000 1 wrapped).0,
      contents (read_pipe (λ _ _. true) 0x6000 1 wrapped).1.pipe,
    )
    ≡ read_queue 1 wrapped.pipe.writers (contents wrapped.pipe)
unfolding new_pipe wrapped
read_pipe-queue_example = read_pipe-queue (λ _ _. true) 0x6000 1 wrapped refl

wrapped_queue : write_queue (5 ∷ 6 ∷ []) 1 (4096 ∷ 1 ∷ []) ≡ (ok 2, 4096 ∷ 1 ∷ 5 ∷ 6 ∷ [])
unfolding write_queue
wrapped_queue = refl

wrapped_read : read_queue 1 1 (4096 ∷ 1 ∷ []) ≡ (ok (4096 ∷ []), 1 ∷ [])
unfolding read_queue
wrapped_read = refl

-- A reader that comes to the new pipe waits on it.
abbrev fresh : World
fresh = record awaited { pipe = new_pipe }

Reached-IsSound_example : IsSound (read_pipe (λ _ _. true) 0x5000 2 fresh).1.pipe
Reached-IsSound_example =
    Reached-IsSound (read_pipe (λ _ _. true) 0x5000 2 fresh).1.pipe
      (Reached.call Reached.create (Step.read (λ _ _. true) 0x5000 2 fresh))

it_waits : (read_pipe (λ _ _. true) 0x5000 2 fresh).0 ≡ err would_block
unfolding read_pipe new_pipe
it_waits = refl

abbrev writer : Process
unfolding new_user
writer = record (new_user 9 0x400000 0x7FFF_0000 0x9000 3 4 5) { state = blocked }

abbrev offering : PipeWaiter
offering = record { pid = 9; user_buf = 0x8000; count = 3 }

-- A full pipe, whose writer has three bytes more and sleeps.
abbrev crowded : World
unfolding new_pipe new
crowded = record {
  pipe = record new_pipe { len = 4096; write_waiter = some offering };
  sched = record new { wait_queue = writer ∷ [] };
  memory = λ space addr. addr % 256;
}
