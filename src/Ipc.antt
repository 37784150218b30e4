-- ===== src/Ipc.antt =====
-- kernel/src/ipc/channel.rs: messages, the ring of a channel, the channel and the table of them.
pub mod Ring
pub mod Messages
pub mod Table
pub mod Paths
use rust_so_kernel.Prelude.{
  ℕ, zero, suc, ◌+◌, ◌-◌, ◌%◌, ◌^◌, Option, none, some, Bool, true, false, ◌&&◌, ◌||◌, List, [],
  ◌∷◌, ◌++◌, ◌==◌, ltb, min, if◌then◌else◌, length, take, replicate, get_or, update,
}

pub record Message : Type 0 where
  pub tag : ℕ
  pub len : ℕ
  pub payload_bytes : List ℕ

-- `Message::empty`
unfoldable pub empty_message : Message
empty_message = record { tag = 0; len = 0; payload_bytes = replicate 56 0 }

-- `Message::new`
unfoldable pub message : ℕ → List ℕ → Message
message tag bytes =
    let len = min (length bytes) 56 in
    record { tag = tag; len = len; payload_bytes = take len bytes ++ replicate (56 - len) 0 }

-- `Message::payload`
unfoldable pub payload : Message → List ℕ
payload m = take m.len m.payload_bytes

abbrev pub ring_cap : ℕ
ring_cap = 16

pub record RingBuf : Type 0 where
  pub buf : ℕ → Message
  pub head : ℕ
  pub tail : ℕ
  pub len : ℕ

-- `RingBuf::new`
unfoldable pub new_ring : RingBuf
unfolding empty_message
new_ring = record { buf = λ _. empty_message; head = 0; tail = 0; len = 0 }

abbrev pub is_empty : RingBuf → Bool
is_empty r = r.len == 0

abbrev pub is_full : RingBuf → Bool
is_full r = r.len == ring_cap

unfoldable pub push : Message → RingBuf → Bool × RingBuf
push msg r = if is_full r then (false, r) else (
  true,
  record r { buf = update r.buf r.tail msg; tail = (r.tail + 1) % ring_cap; len = r.len + 1 },
)

unfoldable pub pop : RingBuf → Option Message × RingBuf
pop r =
    if is_empty r
    then (none, r)
    else (some (r.buf r.head), record r { head = (r.head + 1) % ring_cap; len = r.len - 1 })

pub data ServerState : Type 0 where
  listening : ServerState
  pending_connect : ℕ → ServerState

pub record Channel : Type 0 where
  pub rx : RingBuf
  pub read_waiters : List ℕ
  pub accept_waiters : List ℕ
  pub peer : Option ℕ
  pub server_state : Option ServerState
  pub bound_path : Option (List ℕ)

-- `Channel::new`
unfoldable pub new_channel : Channel
unfolding new_ring
new_channel = record {
  rx = new_ring;
  read_waiters = [];
  accept_waiters = [];
  peer = none;
  server_state = none;
  bound_path = none;
}

unfoldable pub enqueue : Message → Channel → Bool × Channel
unfolding push
enqueue msg c = let (sent, rx) = push msg c.rx in (sent, record c { rx = rx })

unfoldable pub dequeue : Channel → Option Message × Channel
unfolding pop
dequeue c = let (msg, rx) = pop c.rx in (msg, record c { rx = rx })

-- `contains`
unfoldable pub elem : ℕ → List ℕ → Bool
elem n [] = false
elem n (m ∷ ms) = if m == n then true else elem n ms

unfoldable pub add_waiter : ℕ → List ℕ → List ℕ
unfolding elem
add_waiter pid pids = if elem pid pids then pids else pids ++ pid ∷ []

unfoldable pub add_read_waiter : ℕ → Channel → Channel
unfolding add_waiter
add_read_waiter pid c = record c { read_waiters = add_waiter pid c.read_waiters }

unfoldable pub take_read_waiters : Channel → List ℕ × Channel
take_read_waiters c = (c.read_waiters, record c { read_waiters = [] })

unfoldable pub add_accept_waiter : ℕ → Channel → Channel
unfolding add_waiter
add_accept_waiter pid c = record c { accept_waiters = add_waiter pid c.accept_waiters }

unfoldable pub take_accept_waiters : Channel → List ℕ × Channel
take_accept_waiters c = (c.accept_waiters, record c { accept_waiters = [] })

abbrev pub max_channels : ℕ
max_channels = 64

pub record ChannelTable : Type 0 where
  pub slots : ℕ → Option Channel
  pub next_id : ℕ

-- `ChannelTable::new`
unfoldable pub new_table : ChannelTable
new_table = record { slots = λ _. none; next_id = 1 }

-- `for _ in 0..n`
unfoldable pub alloc_from : ℕ → ChannelTable → Option ℕ × ChannelTable
unfolding new_channel
alloc_from zero t = (none, t)
alloc_from (suc n) t =
    let id = t.next_id in
    let next = id % (max_channels - 1) + 1 in
    let rest = alloc_from n (record t { next_id = next }) in
    elim (t.slots id) [
      | none ↦ (some id, record { slots = update t.slots id (some new_channel); next_id = next })
      | some _ ↦ rest
    ]

unfoldable pub alloc : ChannelTable → Option ℕ × ChannelTable
unfolding alloc_from
alloc t = alloc_from max_channels t

unfoldable pub free : ℕ → ChannelTable → ChannelTable
free id t = if ltb id max_channels then record t { slots = update t.slots id none } else t

unfoldable pub same_bytes : List ℕ → List ℕ → Bool
same_bytes [] [] = true
same_bytes (x ∷ xs) (y ∷ ys) = x == y && same_bytes xs ys
same_bytes xs ys = false

-- The test of `find_by_path` on one bound path, an array of 64 bytes.
unfoldable pub is_bound_to : List ℕ → List ℕ → Bool
unfolding same_bytes
is_bound_to path bound =
    let len = min (length path) 64 in
    same_bytes (take len bound) (take len path) && (len == 64 || get_or bound len 0 == 0)

-- `slots.iter().enumerate()` from an index on, with the number of slots left.
unfoldable pub find_from : ℕ → ℕ → List ℕ → ChannelTable → Option ℕ
unfolding is_bound_to
find_from zero id path t = none
find_from (suc n) id path t =
    let rest = find_from n (id + 1) path t in
    elim (t.slots id) [
      | none ↦ rest
      | some c ↦ (elim c.bound_path [
        | none ↦ rest
        | some bound ↦ if is_bound_to path bound then some id else rest
      ])
    ]

unfoldable pub find_by_path : List ℕ → ChannelTable → Option ℕ
unfolding find_from
find_by_path path t = find_from max_channels 0 path t
