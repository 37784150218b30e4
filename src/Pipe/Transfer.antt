-- ===== src/Pipe/Transfer.antt =====
-- What the ends of a pipe do to its bytes: a queue while nobody waits, and the way to a waiting
-- reader's memory.
use rust_so_kernel.Prelude.{
  ℕ, ◌-◌, ◌≡◌, sym, ◌≤◌, ◌∙◌, ap, ap₂, none, Bool, true, false, List, [], ◌++◌, refl, arith,
  Bool-cases, inl, inr, if◌then◌else◌, ◌==◌, ltb, min, length, take, drop, append_nil, take-min,
  drop-min, length-window, ==→eq,
}
use rust_so_kernel.Pipe.{PipeBuffer, pipe_capacity, pipe_slot, try_read, try_write}
use rust_so_kernel.Pipe.Contents.{contents, try_read-contents, try_write-contents}
use rust_so_kernel.Pipe.Ends.{
  World, FileResult, ok, err, would_block, broken_pipe, hand_over, refill, read_pipe, write_pipe,
}

-- The queue that a reader sees while nobody waits.
unfoldable pub read_queue : ℕ → ℕ → List ℕ → FileResult (List ℕ) × List ℕ
read_queue size writers bytes =
    if size == 0
    then (ok [], bytes)
    else if ltb 0 (length bytes)
    then (ok (take size bytes), drop size bytes)
    else if writers == 0
    then (ok [], bytes)
    else (err would_block, bytes)

-- The queue that a writer sees while nobody waits.
unfoldable pub write_queue : List ℕ → ℕ → List ℕ → FileResult ℕ × List ℕ
write_queue buf readers bytes =
    let n = min (length buf) (pipe_capacity - length bytes) in
    if length buf == 0
    then (ok 0, bytes)
    else if readers == 0
    then (err broken_pipe, bytes)
    else if n == 0
    then (err would_block, bytes)
    else (ok n, bytes ++ take n buf)

pub length-contents : (pb : PipeBuffer) → length (contents pb) ≡ pb.len
unfolding contents
length-contents pb = length-window pipe_slot pb.cells pb.head pb.len

-- A write while no reader waits is the queue's: nothing into an empty buffer, EPIPE with no read end
-- left, WouldBlock when the pipe is full, and otherwise the bytes that there is room for are added
-- behind the others and their number returned.
pub write_pipe-queue :
    (mapped : ℕ → ℕ → Bool) (addr : ℕ) (buf : List ℕ) (w : World)
    → w.pipe.len ≤ 4096
    → w.pipe.read_waiter ≡ none
    → ((write_pipe mapped addr buf w).0, contents (write_pipe mapped addr buf w).1.pipe)
      ≡ write_queue buf w.pipe.readers (contents w.pipe)
unfolding write_pipe write_queue try_write hand_over contents
write_pipe-queue mapped addr buf w le quiet =
    let n = min (length buf) (pipe_capacity - w.pipe.len) in
    let size = length-contents w.pipe in
    elim (Bool-cases (length buf == 0)) [
      | inl z ↦ rw (write_pipe, write_queue, z) refl
      | inr nz ↦ (elim (Bool-cases (w.pipe.readers == 0)) [
        | inl z ↦ rw (write_pipe, write_queue, nz, z) refl
        | inr readable ↦ (elim (Bool-cases (ltb 0 n)) [
          | inl lt ↦
              let some_bytes : (n == 0) ≡ false = ground arith in
              rw (write_pipe, write_queue, nz, readable, lt, size, quiet, hand_over, some_bytes)
                (ap (λ l. (ok n, l)) (try_write-contents buf w.pipe le))
          | inr ge ↦
              let no_byte : (n == 0) ≡ true = ground arith in
              rw (write_pipe, write_queue, nz, readable, ge, size, no_byte)
                (ap (λ l. (err would_block, l))
                  (try_write-contents buf w.pipe le
                    ∙ ap (λ k. contents w.pipe ++ take k buf) (==→eq n 0 no_byte)
                    ∙ append_nil (contents w.pipe)))
        ])
      ])
    ]

-- A read while no writer waits is the queue's: nothing into an empty buffer, the end of the stream
-- from an empty pipe with no write end left, WouldBlock from another empty one, and otherwise the
-- oldest bytes, as many as fit.
pub read_pipe-queue :
    (mapped : ℕ → ℕ → Bool) (addr size : ℕ) (w : World)
    → w.pipe.write_waiter ≡ none
    → ((read_pipe mapped addr size w).0, contents (read_pipe mapped addr size w).1.pipe)
      ≡ read_queue size w.pipe.writers (contents w.pipe)
unfolding read_pipe read_queue refill contents try_read
read_pipe-queue mapped addr size w quiet =
    let len = length-contents w.pipe in
    let read = try_read-contents size w.pipe in
    let rest : contents (try_read size w.pipe).1 ≡ drop size (contents w.pipe) =
      read.1
      ∙ ap (λ k. drop (min size k) (contents w.pipe)) (sym len)
      ∙ drop-min size (contents w.pipe) in
    let taken : (try_read size w.pipe).0 ≡ take size (contents w.pipe) =
      read.0
      ∙ ap (λ k. take (min size k) (contents w.pipe)) (sym len)
      ∙ take-min size (contents w.pipe) in
    elim (Bool-cases (size == 0)) [
      | inl z ↦ rw (read_pipe, read_queue, z) refl
      | inr nz ↦ (elim (Bool-cases (ltb 0 w.pipe.len)) [
        | inl lt ↦
            rw (read_pipe, read_queue, nz, lt, quiet, refill, len, lt)
              (ap₂ (λ a b. (ok a, b)) taken rest)
        | inr ge ↦ (elim (Bool-cases (w.pipe.writers == 0)) [
          | inl z ↦ rw (read_pipe, read_queue, nz, ge, z, len, ge) refl
          | inr writable ↦ rw (read_pipe, read_queue, nz, ge, writable, len, ge) refl
        ])
      ])
    ]
