-- ===== src/Keys.antt =====
-- kernel/src/keyboard_buffer.rs: the two rings between the keyboard's interrupt handler and its
-- readers. They differ in their capacity and in what they hold; `wrap` is `% CAPACITY`.
pub mod Queue
pub mod Capacities
use rust_so_kernel.Prelude.{
  ℕ, ◌+◌, Option, none, some, Bool, true, false, not, List, [], ◌∷◌, ◌==◌, if◌then◌else◌, update,
}

pub record KeyBuffer (A : Type 0) : Type 0 where
  pub cells : ℕ → Option A
  pub read : ℕ
  pub write : ℕ

-- `RawKeyEvent`
pub record RawKeyEvent : Type 0 where
  pub keycode : ℕ
  pub pressed : Bool

-- `new` of either ring.
unfoldable pub new_keys : {A : Type 0} → KeyBuffer A
new_keys = record { cells = λ _. none; read = 0; write = 0 }

unfoldable pub peek : {A : Type 0} → KeyBuffer A → Bool
peek b = not (b.read == b.write)

module _ {A : Type 0} (wrap : ℕ → ℕ) where
  unfoldable pub push_key : A → KeyBuffer A → KeyBuffer A
  push_key c b =
      let next_write = wrap (b.write + 1) in
      if next_write == b.read
      then b
      else record b { cells = update b.cells b.write (some c); write = next_write }

  unfoldable pub push_keys : List A → KeyBuffer A → KeyBuffer A
  unfolding push_key
  push_keys [] b = b
  push_keys (c ∷ cs) b = push_keys cs (push_key c b)

  -- A `pop` during which the interrupt handler pushes `cs`, after the two loads and before the cell
  -- is read and the new read index stored. Without an interrupt `cs` is empty.
  unfoldable pub pop_key : List A → KeyBuffer A → Option A × KeyBuffer A
  unfolding push_keys
  pop_key cs b =
      let read = b.read in
      let write = b.write in
      let b' = push_keys cs b in
      if read == write then (none, b') else (b'.cells read, record b' { read = wrap (read + 1) })
