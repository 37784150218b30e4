-- ===== src/Examples/Processes.antt =====
-- Processes, wait statuses and signals at concrete inputs.
use rust_so_kernel.Prelude.{◌+◌, ◌^◌, ◌≡◌, refl, none, some, false, ◌==◌, arith, ◌≢◌, if◌then◌else◌}
use rust_so_kernel.Prelude.Bits.{bit_test, bit_and_not, trailing_zeros}
use rust_so_kernel.Process.{Process, zero_frame, new_user, handler}
use rust_so_kernel.Process.Signal.{Context, deliverable, deliver_pending, sigstop}
use rust_so_kernel.Process.Signal.Delivery.{IsChosen, chosen, deliver_pending_takes_lowest}

abbrev shell : Process
unfolding new_user
shell = new_user 7 0x400000 0x7FFF_0000 0x9000 3 4 5

abbrev exited : Process
exited = record shell { exit_status = 0x1_05 }

abbrev killed : Process
killed = record shell { killed_by_signal = some 11 }

abbrev halted : Process
halted = record shell { stopped_by_signal = some 20 }

-- SIGUSR1 and SIGSTOP are pending; SIGUSR1 is blocked.
abbrev signalled : Process
signalled = record shell {
  pending_signals = 2 ^ 10 + 2 ^ 19;
  blocked_signals = 2 ^ 10;
  signal_handlers = λ _. handler 0x5000;
}

abbrev interrupted : Context
interrupted = record {
  proc = signalled;
  tf = record zero_frame { rsp = 0x7000; rip = 0x1234 };
  stack = record { frames = λ _. none; words = λ _. none };
}

signalled_deliverable : deliverable interrupted.proc ≡ 2 ^ 19
unfolding deliverable bit_and_not new_user
signalled_deliverable = refl

signalled_not_zero : deliverable interrupted.proc ≢ 0
signalled_not_zero e = omega (arith, signalled_deliverable, e)

signalled_chosen : chosen interrupted.proc ≡ sigstop
unfolding deliverable bit_and_not trailing_zeros new_user
signalled_chosen = refl

deliver_pending_takes_lowest_example :
    IsChosen interrupted.proc
    × (bit_test 10 (deliver_pending interrupted).1.proc.pending_signals ≡ (
        if 10 == chosen interrupted.proc
        then false
        else bit_test 10 interrupted.proc.pending_signals))
deliver_pending_takes_lowest_example =
    deliver_pending_takes_lowest interrupted 10 signalled_not_zero
