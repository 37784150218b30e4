-- ===== src/Examples/Devices.antt =====
-- Timers and the terminal at concrete inputs.
use rust_so_kernel.Prelude.{
  ℕ, ◌+◌, ◌≡◌, ◌≢◌, refl, none, some, true, false, List, [], ◌∷◌, ◌++◌, arith, take,
}
use rust_so_kernel.Process.{Process, new_user, running}
use rust_so_kernel.Process.Scheduler.{Scheduler, new}
use rust_so_kernel.Timers.{
  HrTimer, HrTimerQueue, wake_pid, kernel_fn, no_timers, insert, start, drain, tick,
}
use rust_so_kernel.Timers.Order.{Sorted, expired, pending, pids_of, calls_of, tick-expired}
use rust_so_kernel.Tty.{default_termios, control_signal, feed_input, sigint}
use rust_so_kernel.Tty.Signals.{Signalled, feed_input-Signalled}

abbrev alarm : ℕ → ℕ → HrTimer
alarm pid expiry = record { id = pid; expiry_ns = expiry; action = wake_pid pid }

-- Nine processes sleep until 10, and one until 30.
abbrev sleepers : HrTimerQueue
sleepers = record {
  timers =
      alarm 1 10
      ∷ alarm 2 10
      ∷ alarm 3 10
      ∷ alarm 4 10
      ∷ alarm 5 10
      ∷ alarm 6 10
      ∷ alarm 7 10
      ∷ alarm 8 10
      ∷ alarm 9 10
      ∷ alarm 10 30
      ∷ [];
  next_id = 11;
}

sleepers-Sorted : Sorted sleepers.timers
sleepers-Sorted = grind arith

tick-expired_example :
    ((tick 20 sleepers).0.pids ≡ take 8 (pids_of (expired 20 sleepers.timers)))
    × ((tick 20 sleepers).0.calls ≡ calls_of (expired 20 sleepers.timers))
    × ((tick 20 sleepers).1.timers ≡ pending 20 sleepers.timers)
tick-expired_example = tick-expired 20 sleepers sleepers-Sorted

-- The ninth is not woken, and its timer is gone.
ninth_is_lost :
    ((tick 20 sleepers).0.pids ≡ 1 ∷ 2 ∷ 3 ∷ 4 ∷ 5 ∷ 6 ∷ 7 ∷ 8 ∷ [])
    × ((tick 20 sleepers).1.timers ≡ alarm 10 30 ∷ [])
unfolding tick drain
ninth_is_lost = (refl, refl)

abbrev two_timers : HrTimerQueue
two_timers = (start 5 (kernel_fn 1) (start 10 (wake_pid 7) no_timers).1).1

in_order :
    two_timers.timers
    ≡ record { id = 2; expiry_ns = 5; action = kernel_fn 1 }
      ∷ record { id = 1; expiry_ns = 10; action = wake_pid 7 }
      ∷ []
unfolding start insert no_timers
in_order = refl

abbrev job : Process
unfolding new_user
job = record (new_user 7 0x400000 0x7FFF_0000 0x9000 3 4 5) { state = running; pgid = 7 }

abbrev console : Scheduler
unfolding new
console = record new { current = some job }

-- Ctrl-C
interrupt : control_signal default_termios 3 ≡ some sigint
unfolding control_signal default_termios
interrupt = refl

seven : ◌≢◌ {A = ℕ} 7 0
seven e = omega (arith, e)

feed_input-Signalled_example :
    ((feed_input default_termios 7 3 console).0 ≡ false)
    × Signalled 7 sigint console (feed_input default_termios 7 3 console).1
unfolding default_termios rust_so_kernel.Prelude.Bits.bit_test
feed_input-Signalled_example =
    feed_input-Signalled default_termios 7 3 sigint console refl interrupt seven
