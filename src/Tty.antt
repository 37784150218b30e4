-- ===== src/Tty.antt =====
-- kernel/src/tty.rs: the line discipline of the console, which turns control characters into signals
-- for the foreground process group.
pub mod Signals
use rust_so_kernel.Prelude.{
  ℕ, ◌+◌, ◌/◌, ◌%◌, Option, none, some, Bool, true, false, List, [], ◌∷◌, not, ◌==◌, if◌then◌else◌,
  get_or,
}
use rust_so_kernel.Prelude.Bits.{bit_test}
use rust_so_kernel.Process.Signal.{sigtstp}
use rust_so_kernel.Process.Scheduler.{Scheduler}
use rust_so_kernel.Process.Scheduler.Notify.{queue_signal_to_group}

abbrev pub vintr : ℕ
vintr = 3

abbrev pub vquit : ℕ
vquit = 6

abbrev pub vsusp : ℕ
vsusp = 9

abbrev pub sigint : ℕ
sigint = 2

abbrev pub sigquit : ℕ
sigquit = 3

pub record Termios : Type 0 where
  pub c_iflag : ℕ
  pub c_oflag : ℕ
  pub c_cflag : ℕ
  pub c_lflag : ℕ
  pub c_cc : List ℕ
  pub ibaud : ℕ
  pub obaud : ℕ

-- `default_termios`: c_cc by VEOF, VEOL, VERASE, VINTR, VKILL, VMIN, VQUIT, VSTART, VSTOP, VSUSP, VTIME
unfoldable pub default_termios : Termios
default_termios = record {
  c_iflag = 0x0402;
  c_oflag = 0x0003;
  c_cflag = 0x000B;
  c_lflag = 0x0077;
  c_cc = 0x04 ∷ 0 ∷ 0x7F ∷ 0x03 ∷ 0x15 ∷ 1 ∷ 0x1C ∷ 0x11 ∷ 0x13 ∷ 0x1A ∷ 0 ∷ [];
  ibaud = 0;
  obaud = 0;
}

-- `t.c_lflag & ISIG != 0`, ISIG being bit 6.
abbrev pub has_isig : Termios → Bool
has_isig t = bit_test 6 t.c_lflag

-- The signal that a character stands for.
unfoldable pub control_signal : Termios → ℕ → Option ℕ
control_signal t byte =
    if byte == get_or t.c_cc vintr 0
    then some sigint
    else if byte == get_or t.c_cc vquit 0
    then some sigquit
    else if byte == get_or t.c_cc vsusp 0
    then some sigtstp
    else none

-- With the terminal's settings and the foreground group: whether the character is to be queued, and
-- the scheduler after the signal.
unfoldable pub feed_input : Termios → ℕ → ℕ → Scheduler → Bool × Scheduler
unfolding control_signal queue_signal_to_group
feed_input t pgid byte s = if not (has_isig t) then (true, s) else (elim (control_signal t byte) [
  | none ↦ (true, s)
  | some sig ↦ (false, if not (pgid == 0) then queue_signal_to_group pgid sig s else s)
])
