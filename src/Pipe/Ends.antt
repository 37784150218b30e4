-- ===== src/Pipe/Ends.antt =====
-- kernel/src/process/pipe.rs: the two ends of a pipe, with the bytes that go to and from the memory
-- of a blocked process, and the process's wakeup. A lock that is dropped and taken again inside one
-- call is one step here.
use rust_so_kernel.Prelude.{
  ℕ, zero, suc, ◌+◌, ◌-◌, ◌/◌, ◌%◌, ◌^◌, Option, none, some, Bool, ◌&&◌, List, [], ◌∷◌, min, length,
  take, get_or, ◌==◌, ltb, leb, if◌then◌else◌, find?, change_first,
}
use rust_so_kernel.Process.{Process}
use rust_so_kernel.Process.Scheduler.{Scheduler}
use rust_so_kernel.Process.Scheduler.Wake.{wake, is_blocked}
use rust_so_kernel.Pipe.{PipeBuffer, PipeWaiter, pipe_capacity, try_read, try_write}

-- Memory by address space and address.
abbrev pub Memory : Type 0
Memory = ℕ → ℕ → ℕ

-- A pipe with what its ends reach: the scheduler and user memory.
pub record World : Type 0 where
  pub pipe : PipeBuffer
  pub sched : Scheduler
  pub memory : Memory

-- `FileError` of file.rs
pub data FileError : Type 0 where
  bad_file_descriptor : FileError
  invalid_argument : FileError
  io_error : FileError
  not_supported : FileError
  end_of_file : FileError
  broken_pipe : FileError
  no_space : FileError
  would_block : FileError

pub data FileResult (A : Type 0) : Type 0 where
  ok : A → FileResult A
  err : FileError → FileResult A

unfoldable pub write_bytes : ℕ → ℕ → List ℕ → Memory → Memory
write_bytes space addr xs mem a v =
    if a == space && leb addr v && ltb v (addr + length xs)
    then get_or xs (v - addr) (mem a v)
    else mem a v

unfoldable pub read_bytes : ℕ → ℕ → ℕ → Memory → List ℕ
read_bytes space addr zero mem = []
read_bytes space addr (suc n) mem = mem space addr ∷ read_bytes space (addr + 1) n mem

-- `current_pid().unwrap_or(0)`
unfoldable pub current_pid : Scheduler → ℕ
current_pid s = elim s.current [ none ↦ 0 | some p ↦ p.pid ]

abbrev pub set_rax : ℕ → Process → Process
set_rax rax p = record p { trapframe = record (p.trapframe) { rax = rax } }

abbrev pub is_sleeper : ℕ → Process → Bool
is_sleeper pid p = p.pid == pid && is_blocked p

-- Page by page: how many bytes from `vaddr` come before the first page without a frame. The first
-- number bounds the pages, and every page takes one byte at least.
unfoldable pub copied : (ℕ → Bool) → ℕ → ℕ → ℕ → ℕ
copied mapped zero vaddr left = 0
copied mapped (suc fuel) vaddr left =
    let chunk = min left (0x1000 - vaddr % 0x1000) in
    let rest = copied mapped fuel (vaddr + chunk) (left - chunk) in
    if left == 0 then 0 else if mapped (vaddr / 0x1000) then chunk + rest else 0

-- `mapped` says which pages of an address space have a frame once `ensure_user_pages_mapped` ran.
module _ (mapped : ℕ → ℕ → Bool) where
  unfoldable pub copy_to_user : Process → ℕ → List ℕ → Memory → ℕ × Memory
  unfolding copied write_bytes
  copy_to_user p addr src mem =
      let n = copied (mapped p.address_space) (length src) addr (length src) in
      (n, write_bytes p.address_space addr (take n src) mem)

  unfoldable pub copy_from_user : Process → ℕ → ℕ → Memory → List ℕ
  unfolding copied read_bytes
  copy_from_user p addr size mem =
      read_bytes p.address_space addr (copied (mapped p.address_space) size addr size) mem

  unfoldable pub deliver_and_wake : ℕ → (Process → Memory → ℕ × Memory) → World → World
  unfolding find? change_first wake
  deliver_and_wake pid f w = elim (find? (is_sleeper pid) w.sched.wait_queue) [
    | none ↦ record w { sched = wake pid w.sched }
    | some p ↦
        let (rax, mem) = f p w.memory in
        (elim (change_first (is_sleeper pid) (set_rax rax) w.sched.wait_queue) [
          | none ↦ record w { sched = wake pid w.sched; memory = mem }
          | some ps ↦ record w {
            sched = wake pid (record (w.sched) { wait_queue = ps });
            memory = mem;
          }
        ])
  ]

  unfoldable pub wake_reader : PipeWaiter → List ℕ → World → World
  unfolding deliver_and_wake copy_to_user
  wake_reader waiter bytes w =
      let n = min (length bytes) waiter.count in
      deliver_and_wake waiter.pid (λ p. copy_to_user p waiter.user_buf (take n bytes)) w

  -- Into a buffer of `size` bytes: the bytes collected.
  unfoldable pub collect_from_writer : PipeWaiter → ℕ → World → List ℕ × World
  unfolding find? copy_from_user deliver_and_wake
  collect_from_writer waiter size w =
      let want = min size waiter.count in
      let got : List ℕ = elim (find? (is_sleeper waiter.pid) w.sched.wait_queue) [
        | none ↦ []
        | some p ↦ copy_from_user p waiter.user_buf want w.memory
      ] in
      (got, deliver_and_wake waiter.pid (λ p mem. (length got, mem)) w)

  unfoldable pub wake_writer_error : PipeWaiter → ℕ → World → World
  unfolding deliver_and_wake
  wake_writer_error waiter errno w = deliver_and_wake waiter.pid (λ p mem. (errno, mem)) w

  -- The bytes of a blocked writer go into the room that a read made.
  unfoldable pub refill : Option PipeWaiter → World → World
  unfolding collect_from_writer try_write
  refill none w = w
  refill (some waiter) w =
      let (got, w') = collect_from_writer waiter pipe_capacity w in
      record w' { pipe = (try_write got w'.pipe).1 }

  -- `PipeReadEnd::read` into the buffer at `addr`: the bytes that it then holds.
  unfoldable pub read_pipe : ℕ → ℕ → World → FileResult (List ℕ) × World
  unfolding try_read refill current_pid
  read_pipe addr size w =
      let pb = w.pipe in
      if size == 0
      then (ok [], w)
      else if ltb 0 pb.len
      then (let (bytes, pb') = try_read size pb in
          (
            ok bytes,
            refill pb'.write_waiter (record w { pipe = record pb' { write_waiter = none } }),
          ))
      else if pb.writers == 0
      then (ok [], w)
      else (
        err would_block,
        record w {
          pipe = record pb {
            read_waiter =
                some (record { pid = current_pid w.sched; user_buf = addr; count = size });
          };
        },
      )

  -- The bytes go to a blocked reader by way of the ring.
  unfoldable pub hand_over : Option PipeWaiter → World → World
  unfolding try_read wake_reader
  hand_over none w = w
  hand_over (some waiter) w =
      let (bytes, pb) = try_read pipe_capacity w.pipe in
      wake_reader waiter bytes (record w { pipe = pb })

  -- `PipeWriteEnd::write` of the bytes at `addr`.
  unfoldable pub write_pipe : ℕ → List ℕ → World → FileResult ℕ × World
  unfolding try_write hand_over current_pid
  write_pipe addr buf w =
      let pb = w.pipe in
      let (n, pb') = try_write buf pb in
      if length buf == 0
      then (ok 0, w)
      else if pb.readers == 0
      then (err broken_pipe, w)
      else if ltb 0 n
      then (ok n, hand_over pb'.read_waiter (record w { pipe = record pb' { read_waiter = none } }))
      else (
        err would_block,
        record w {
          pipe = record pb' {
            write_waiter =
                some (record { pid = current_pid w.sched; user_buf = addr; count = length buf });
          };
        },
      )

  -- The two ends by `drop`. The counts are `u32`.
  unfoldable pub drop_read_end : World → World
  unfolding wake_writer_error
  drop_read_end w =
      let pb = record (w.pipe) { readers = (w.pipe.readers + (2 ^ 32 - 1)) % 2 ^ 32 } in
      if pb.readers == 0
      then (elim pb.write_waiter [
        | none ↦ record w { pipe = pb }
        | some waiter ↦
            wake_writer_error waiter (2 ^ 64 - 32)
              (record w { pipe = record pb { write_waiter = none } })
      ])
      else record w { pipe = pb }

  unfoldable pub drop_write_end : World → World
  unfolding wake_reader
  drop_write_end w =
      let pb = record (w.pipe) { writers = (w.pipe.writers + (2 ^ 32 - 1)) % 2 ^ 32 } in
      if pb.writers == 0
      then (elim pb.read_waiter [
        | none ↦ record w { pipe = pb }
        | some waiter ↦ wake_reader waiter [] (record w { pipe = record pb { read_waiter = none } })
      ])
      else record w { pipe = pb }

-- `dup` of either end.
unfoldable pub dup_read_end : PipeBuffer → PipeBuffer
dup_read_end pb = record pb { readers = (pb.readers + 1) % 2 ^ 32 }

unfoldable pub dup_write_end : PipeBuffer → PipeBuffer
dup_write_end pb = record pb { writers = (pb.writers + 1) % 2 ^ 32 }
