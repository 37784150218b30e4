-- ===== src/Process/Signal/Delivery.antt =====
-- Which signal is delivered, what becomes of it, and the round trip through a handler's frame.
use rust_so_kernel.Prelude.{
  ℕ, ◌+◌, ◌-◌, ◌%◌, ◌^◌, ◌≤◌, ◌<◌, ◌≡◌, refl, sym, ◌∙◌, Bool, true, false, not, ◌&&◌, ◌==◌, arith,
  ◌≢◌, if◌then◌else◌, ne→==,
}
use rust_so_kernel.Prelude.Bits.{
  bit_test, bit_clear, trailing_zeros, bit_test-bit_set, bit_test-bit_clear, bit_test-and_not,
  bit_test-trailing_zeros, bit_test_below, trailing_zeros-lt,
}
use rust_so_kernel.Process.{Process, SignalAction, default, ignore, handler, num_signals}
use rust_so_kernel.Process.Signal.{
  quiet, stop, queue_signal, Context, frame_base, tramp_slot, push_signal_frame, deliverable,
  act_on, deliver_pending, sigstop,
}

-- The signal that `deliver_pending` takes up.
abbrev pub chosen : Process → ℕ
chosen p = trailing_zeros num_signals (deliverable p)

-- Pending and not blocked.
abbrev pub is_deliverable : ℕ → Process → Bool
is_deliverable sig p = bit_test sig p.pending_signals && not (bit_test sig p.blocked_signals)

pub record IsChosen (p : Process) : Type 0 where
  pub in_range : chosen p < num_signals
  pub set : is_deliverable (chosen p) p ≡ true
  pub least : (j : ℕ) → j < chosen p → is_deliverable j p ≡ false

chosen_lem : (p : Process) → deliverable p ≢ 0 → IsChosen p
unfolding deliverable
chosen_lem p h =
    let lt = trailing_zeros-lt 64 p.pending_signals p.blocked_signals h in
    record {
      in_range = lt;
      set =
          sym (bit_test-and_not 64 (chosen p) p.pending_signals p.blocked_signals lt)
          ∙ bit_test-trailing_zeros 64 (deliverable p) lt;
      least = λ j below.
          sym (bit_test-and_not 64 j p.pending_signals p.blocked_signals (omega arith))
          ∙ bit_test_below 64 (deliverable p) j below;
    }

pending-act_on :
    (sig : ℕ) (a : SignalAction) (d : Context)
    → (act_on sig a d).1.proc.pending_signals ≡ d.proc.pending_signals
unfolding act_on push_signal_frame
pending-act_on sig ignore d = ground arith
pending-act_on sig default d = ground arith
pending-act_on sig (handler addr) d = ground arith

-- With something deliverable, `deliver_pending` takes up the lowest signal that is pending and not
-- blocked: it clears that signal's pending bit and no other.
pub deliver_pending_takes_lowest :
    (d : Context) (j : ℕ)
    → deliverable d.proc ≢ 0
    → IsChosen d.proc
      × (bit_test j (deliver_pending d).1.proc.pending_signals
          ≡ (if j == chosen d.proc then false else bit_test j d.proc.pending_signals))
unfolding deliver_pending
deliver_pending_takes_lowest d j h = (
  chosen_lem d.proc h,
  rw (ne→== (deliverable d.proc) 0 h, pending-act_on, bit_test-bit_clear) refl,
)

-- Nothing deliverable: nothing happens.
pub deliver_pending_quiet : (d : Context) → deliverable d.proc ≡ 0 → deliver_pending d ≡ (quiet, d)
unfolding deliver_pending
deliver_pending_quiet d h = rw h refl

-- A process whose lowest deliverable signal is SIGSTOP stops, whatever its table says, and its
-- frame and its stack stay as they were.
pub sigstop_stops :
    (d : Context)
    → deliverable d.proc ≢ 0
    → chosen d.proc ≡ sigstop
    → ((deliver_pending d).0 ≡ stop sigstop)
      × ((deliver_pending d).1.tf ≡ d.tf)
      × ((deliver_pending d).1.stack ≡ d.stack)
unfolding deliver_pending
sigstop_stops d h e =
    let (a, b, c) = act_on_stop (d.proc.signal_handlers sigstop) (record d {
      proc = record (d.proc) { pending_signals = bit_clear sigstop d.proc.pending_signals };
    }) in
    (
      rw (ne→== (deliverable d.proc) 0 h, e) a,
      rw (ne→== (deliverable d.proc) 0 h, e) b,
      rw (ne→== (deliverable d.proc) 0 h, e) c,
    )
  where
    act_on_stop :
        (a : SignalAction) (d : Context)
        → ((act_on sigstop a d).0 ≡ stop sigstop)
          × ((act_on sigstop a d).1.tf ≡ d.tf)
          × ((act_on sigstop a d).1.stack ≡ d.stack)
    act_on_stop ignore d = unfold act_on in (refl, refl, refl)
    act_on_stop default d = unfold act_on in (refl, refl, refl)
    act_on_stop (handler addr) d = unfold act_on in (refl, refl, refl)

-- The handler starts with a stack pointer 8 below its frame, at 8 modulo 16 as after a call; the
-- frame lies below the red zone of the interrupted code, which it leaves alone.
pub frame_layout :
    (rsp : ℕ)
    → 512 ≤ rsp
    → rsp < 2 ^ 64
    → (tramp_slot rsp + 8 ≡ frame_base rsp)
      × (tramp_slot rsp % 16 ≡ 8)
      × (frame_base rsp + 168 ≤ rsp - 128)
unfolding tramp_slot frame_base
frame_layout rsp lo hi = omega arith

-- While a handler runs its own signal is blocked: queued again, it waits. Every other signal is as
-- deliverable as it was.
pub handler_masks_itself :
    (sig addr j : ℕ) (d : Context)
    → is_deliverable j (queue_signal sig (push_signal_frame sig addr d).proc)
      ≡ (if j == sig then false else is_deliverable j d.proc)
unfolding queue_signal push_signal_frame
handler_masks_itself sig addr j d = ground (
  arith,
  bit_test-bit_set sig j d.proc.pending_signals,
  bit_test-bit_set sig j d.proc.blocked_signals,
)
