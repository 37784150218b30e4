-- ===== src/Pipe/Contents.antt =====
-- The byte ring of a pipe against the queue of bytes that it stands for.
use rust_so_kernel.Prelude.{
  ℕ, ◌+◌, ◌-◌, ◌≡◌, ◌≤◌, List, ◌++◌, min, length, take, drop, window, fill, sym, ap, ◌∙◌, Wraps,
  take-window, drop-window, window-wrapped, window-fill, fill-wrapped, arith, length-take,
}
use rust_so_kernel.Pipe.{PipeBuffer, pipe_capacity, pipe_slot, try_read, try_write}

pub pipe_slot-Wraps : Wraps 4096 pipe_slot
pipe_slot-Wraps = record {
  absorbs = λ start i. omega arith;
  apart = λ start i j lt le e. omega arith;
}

-- The bytes in the pipe, the oldest first.
unfoldable pub contents : PipeBuffer → List ℕ
contents pb = window pipe_slot pb.cells pb.head pb.len

-- A read takes the oldest bytes, as many as fit, and leaves the others.
pub try_read-contents :
    (size : ℕ) (pb : PipeBuffer)
    → ((try_read size pb).0 ≡ take (min size pb.len) (contents pb))
      × (contents (try_read size pb).1 ≡ drop (min size pb.len) (contents pb))
unfolding try_read contents
try_read-contents size pb = (
  sym (take-window pipe_slot pb.cells pb.head (min size pb.len) pb.len (omega arith)),
  window-wrapped pipe_slot pipe_slot-Wraps pb.cells (pb.head + min size pb.len)
        (pb.len - min size pb.len)
      ∙ sym (drop-window pipe_slot pb.cells pb.head (min size pb.len) pb.len (omega arith)),
)

-- A write adds the bytes that there is room for behind the others.
pub try_write-contents :
    (buf : List ℕ) (pb : PipeBuffer)
    → pb.len ≤ 4096
    → contents (try_write buf pb).1 ≡ contents pb ++ take (try_write buf pb).0 buf
unfolding try_write contents
try_write-contents buf pb le =
    let n = min (length buf) (pipe_capacity - pb.len) in
    let fits : length (take n buf) ≡ n = length-take n buf ∙ (omega arith) in
    ap (λ c. window pipe_slot c pb.head (pb.len + n))
      (fill-wrapped pipe_slot pipe_slot-Wraps pb.cells (pb.head + pb.len) (take n buf))
    ∙ ap
        (λ k.
          window pipe_slot (fill pipe_slot pb.cells (pb.head + pb.len) (take n buf)) pb.head
            (pb.len + k))
        (sym fits)
    ∙ window-fill pipe_slot pipe_slot-Wraps pb.cells pb.head pb.len (take n buf)
        (omega (arith, fits))
