-- ===== src/Process/Status.antt =====
-- kernel/src/process/mod.rs against the macros of mlibc-port's abi-bits/wait.h: what `waitpid`
-- reports is what a C program reads back.
use rust_so_kernel.Prelude.{ℕ, ◌/◌, ◌%◌, ◌^◌, ◌<◌, ◌≡◌, some, none, arith}
use rust_so_kernel.Process.{Process, wait_status_word, stop_status_word}

unfoldable pub w_exit_status : ℕ → ℕ
w_exit_status x = x % 256

unfoldable pub w_if_exited : ℕ → ℕ
w_if_exited x = x / 0x200 % 2

unfoldable pub w_if_signaled : ℕ → ℕ
w_if_signaled x = x / 0x400 % 2

unfoldable pub w_if_stopped : ℕ → ℕ
w_if_stopped x = x / 0x800 % 2

unfoldable pub w_stop_sig : ℕ → ℕ
w_stop_sig x = x / 2 ^ 16 % 256

unfoldable pub w_term_sig : ℕ → ℕ
w_term_sig x = x / 2 ^ 24 % 256

-- The three predicates, as the macros give them: exited, signaled, stopped.
abbrev pub verdict : ℕ → ℕ × ℕ × ℕ
unfolding w_if_exited w_if_signaled w_if_stopped
verdict x = (w_if_exited x, w_if_signaled x, w_if_stopped x)

-- A process that exited reads back as exited, not signaled and not stopped, with the low eight bits
-- of its status.
pub exit_status_round_trip :
    (p : Process)
    → p.killed_by_signal ≡ none
    → (verdict (wait_status_word p) ≡ (1, 0, 0))
      × (w_exit_status (wait_status_word p) ≡ p.exit_status % 256)
unfolding verdict w_exit_status wait_status_word w_if_exited w_if_signaled w_if_stopped
exit_status_round_trip p e = ground arith

-- A process that a signal killed reads back as signaled, not exited and not stopped, with that signal.
pub term_sig_round_trip :
    (p : Process) (sig : ℕ)
    → p.killed_by_signal ≡ some sig
    → sig < 256
    → (verdict (wait_status_word p) ≡ (0, 1, 0)) × (w_term_sig (wait_status_word p) ≡ sig)
unfolding verdict w_term_sig wait_status_word w_if_exited w_if_signaled w_if_stopped
term_sig_round_trip p sig e h = ground arith

-- A stopped process reads back as stopped, not exited and not signaled, with the signal that stopped
-- it.
pub stop_sig_round_trip :
    (p : Process) (sig : ℕ)
    → p.stopped_by_signal ≡ some sig
    → sig < 256
    → (verdict (stop_status_word p) ≡ (0, 0, 1)) × (w_stop_sig (stop_status_word p) ≡ sig)
unfolding verdict w_stop_sig stop_status_word w_if_exited w_if_signaled w_if_stopped
stop_sig_round_trip p sig e h = ground arith
