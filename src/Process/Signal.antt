-- ===== src/Process/Signal.antt =====
-- kernel/src/process/signal.rs: queueing, delivery, and the frame pushed for a handler.
pub mod Delivery
pub mod Syscalls
use rust_so_kernel.Prelude.{
  ℕ, ◌+◌, ◌-◌, ◌*◌, ◌/◌, ◌%◌, ◌^◌, ◌≡◌, Option, none, some, Bool, true, false, not, ◌&&◌, ◌||◌,
  ◌==◌, leb, if◌then◌else◌, update,
}
use rust_so_kernel.Prelude.Bits.{bit_set, bit_clear, bit_and_not, trailing_zeros}
use rust_so_kernel.Process.{Process, TrapFrame, SignalAction, default, ignore, handler, num_signals}

abbrev pub sigkill : ℕ
sigkill = 9

abbrev pub sigchld : ℕ
sigchld = 17

abbrev pub sigcont : ℕ
sigcont = 18

abbrev pub sigstop : ℕ
sigstop = 19

abbrev pub sigtstp : ℕ
sigtstp = 20

abbrev pub sigttin : ℕ
sigttin = 21

abbrev pub sigttou : ℕ
sigttou = 22

-- `SignalOutcome`; its `None` is `quiet`.
pub data SignalOutcome : Type 0 where
  quiet delivered : SignalOutcome
  terminate stop : ℕ → SignalOutcome

unfoldable pub default_terminates : ℕ → Bool
default_terminates sig = not (sig == sigchld) && not (sig == sigcont)

unfoldable pub queue_signal : ℕ → Process → Process
queue_signal sig p =
    if sig == 0 || leb num_signals sig
    then p
    else record p { pending_signals = bit_set sig p.pending_signals }

pub record SignalFrame : Type 0 where
  pub saved_mask : ℕ
  pub saved_tf : TrapFrame

-- The part of user memory that delivery touches: the frames and the words, by their address.
pub record UserStack : Type 0 where
  pub frames : ℕ → Option SignalFrame
  pub words : ℕ → Option ℕ

abbrev pub trampoline_va : ℕ
trampoline_va = 0x0000_407F_FFFF_F000

-- `size_of::<SignalFrame>()`: 21 words.
abbrev pub frame_size : ℕ
frame_size = 168

-- `u64` subtraction, and `& !0xF`.
abbrev pub sub_u64 : ℕ → ℕ → ℕ
sub_u64 a b = (a + 2 ^ 64 - b) % 2 ^ 64

abbrev pub align_16 : ℕ → ℕ
align_16 a = a / 16 * 16

unfoldable pub frame_base : ℕ → ℕ
frame_base rsp = align_16 (sub_u64 (align_16 (rsp - 128)) frame_size)

unfoldable pub tramp_slot : ℕ → ℕ
tramp_slot rsp = sub_u64 (frame_base rsp) 8

pub record Context : Type 0 where
  pub proc : Process
  pub tf : TrapFrame
  pub stack : UserStack

unfoldable pub push_signal_frame : ℕ → ℕ → Context → Context
push_signal_frame sig addr d =
    let base = frame_base d.tf.rsp in
    let slot = tramp_slot d.tf.rsp in
    let frame : SignalFrame = record { saved_mask = d.proc.blocked_signals; saved_tf = d.tf } in
    record {
      proc = record (d.proc) { blocked_signals = bit_set sig d.proc.blocked_signals };
      tf = record (d.tf) { rdi = sig; rip = addr; rsp = slot };
      stack = record {
        frames = update d.stack.frames base (some frame);
        words = update d.stack.words slot (some trampoline_va);
      };
    }

-- `none` is a read of what is no frame.
unfoldable pub pop_signal_frame : ℕ → Context → Option Context
pop_signal_frame user_rsp d = elim (d.stack.frames user_rsp) [
  | none ↦ none
  | some frame ↦ some (record {
    proc = record (d.proc) { blocked_signals = frame.saved_mask };
    tf = frame.saved_tf;
    stack = d.stack;
  })
]

unfoldable pub deliverable : Process → ℕ
deliverable p = bit_and_not num_signals p.pending_signals p.blocked_signals

-- The `match` on the disposition of `sig`.
unfoldable pub act_on : ℕ → SignalAction → Context → SignalOutcome × Context
act_on sig ignore d = if sig == sigstop then (stop sig, d) else (quiet, d)
act_on sig default d =
    if sig == sigstop
    then (stop sig, d)
    else if sig == sigtstp || sig == sigttin || sig == sigttou
    then (stop sig, d)
    else if default_terminates sig
    then (terminate sig, d)
    else (quiet, d)
act_on sig (handler addr) d =
    if sig == sigstop then (stop sig, d) else (delivered, push_signal_frame sig addr d)

unfoldable pub deliver_pending : Context → SignalOutcome × Context
deliver_pending d =
    let sig = trailing_zeros num_signals (deliverable d.proc) in
    let p = record (d.proc) { pending_signals = bit_clear sig d.proc.pending_signals } in
    if deliverable d.proc == 0
    then (quiet, d)
    else act_on sig (d.proc.signal_handlers sig) (record d { proc = p })
