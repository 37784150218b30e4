-- ===== src/Pipe/Collect.antt =====
-- The way of a blocked writer's bytes into the room that a read makes.
use rust_so_kernel.Prelude.{ℕ, List, min}
use rust_so_kernel.Process.{Process}
use rust_so_kernel.Pipe.{PipeWaiter}
use rust_so_kernel.Pipe.Ends.{Memory, read_bytes}

-- The bytes of a waiting writer, as many as a pipe can hold.
abbrev pub offered : Process → PipeWaiter → Memory → List ℕ
offered p r mem = read_bytes p.address_space r.user_buf (min 4096 r.count) mem
