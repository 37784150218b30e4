-- ===== src/Pipe.antt =====
-- kernel/src/process/pipe.rs: the byte ring of a pipe. Its two ends are in Pipe/Ends.
pub mod Contents
pub mod Ends
pub mod Soundness
pub mod Reached
pub mod Transfer
pub mod Handover
pub mod Collect
use rust_so_kernel.Prelude.{
  ℕ, ◌+◌, ◌-◌, ◌%◌, Option, none, some, List, min, length, take, window, fill,
}

abbrev pub pipe_capacity : ℕ
pipe_capacity = 4096

pub record PipeWaiter : Type 0 where
  pub pid : ℕ
  pub user_buf : ℕ
  pub count : ℕ

pub record PipeBuffer : Type 0 where
  pub cells : ℕ → ℕ
  pub head : ℕ
  pub len : ℕ
  pub readers : ℕ
  pub writers : ℕ
  pub read_waiter : Option PipeWaiter
  pub write_waiter : Option PipeWaiter

-- `PipeBuffer::new`
unfoldable pub new_pipe : PipeBuffer
new_pipe = record {
  cells = λ _. 0;
  head = 0;
  len = 0;
  readers = 1;
  writers = 1;
  read_waiter = none;
  write_waiter = none;
}

abbrev pub pipe_slot : ℕ → ℕ
pipe_slot i = i % 4096

-- Into a buffer of `size` bytes: the bytes read, as many as the count returned.
unfoldable pub try_read : ℕ → PipeBuffer → List ℕ × PipeBuffer
unfolding window
try_read size pb =
    let n = min size pb.len in
    (
      window pipe_slot pb.cells pb.head n,
      record pb { head = (pb.head + n) % 4096; len = pb.len - n },
    )

unfoldable pub try_write : List ℕ → PipeBuffer → ℕ × PipeBuffer
unfolding fill
try_write buf pb =
    let space = pipe_capacity - pb.len in
    let n = min (length buf) space in
    let tail = (pb.head + pb.len) % 4096 in
    (n, record pb { cells = fill pipe_slot pb.cells tail (take n buf); len = pb.len + n })
