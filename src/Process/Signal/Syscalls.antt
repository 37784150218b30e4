-- ===== src/Process/Signal/Syscalls.antt =====
-- kernel/src/process/syscall/signal.rs: sigaction, sigprocmask and sigreturn for the running
-- process, with `validate_user_buffer` of syscall/mod.rs. User memory is read by `load`; a write to
-- it is an address with the word written.
use rust_so_kernel.Prelude.{
  ℕ, ◌+◌, ◌^◌, ◌≡◌, Option, none, some, Bool, true, false, not, ◌&&◌, ◌||◌, ◌==◌, ltb, leb, arith,
  Bool-cases, inl, inr, ◌≢◌, if◌then◌else◌, update, Option-cases, some_inj,
}
use rust_so_kernel.Prelude.Bits.{
  bit_test, bit_clear, bit_and_not, bit_union, bit_test-bit_clear, bit_test-and_not, bit_test-union,
}
use rust_so_kernel.Process.{Process, SignalAction, default, ignore, handler, num_signals}
use rust_so_kernel.Process.Signal.{Context, pop_signal_frame, sigkill, sigstop}

pub data Errno : Type 0 where
  einval efault : Errno

-- What a call returns, what it writes, and the process after it.
pub record Outcome : Type 0 where
  pub result : Option Errno
  pub written : Option (ℕ × ℕ)
  pub proc : Process

abbrev user_space_max : ℕ
user_space_max = 0x0000_8000_0000_0000

-- Whether `validate_user_buffer` accepts: not null, no `u64` overflow, below the user limit.
unfoldable pub validate_user_buffer : ℕ → ℕ → Bool
validate_user_buffer addr size =
    not (addr == 0)
    && ltb (addr + size) (2 ^ 64)
    && ltb addr user_space_max
    && leb (addr + size) user_space_max

-- A null pointer is not looked at.
unfoldable pub is_good : ℕ → Bool
unfolding validate_user_buffer
is_good ptr = ptr == 0 || validate_user_buffer ptr 8

abbrev fails : Errno → Process → Outcome
fails e p = record { result = some e; written = none; proc = p }

unfoldable pub decode_action : ℕ → SignalAction
decode_action addr = if addr == 0 then default else if addr == 1 then ignore else handler addr

unfoldable pub encode_action : SignalAction → ℕ
encode_action default = 0
encode_action ignore = 1
encode_action (handler addr) = addr

unfoldable pub sys_sigaction : (ℕ → ℕ) → ℕ → ℕ → ℕ → Process → Outcome
unfolding is_good decode_action encode_action
sys_sigaction load sig act_ptr oldact_ptr p =
    if sig == 0 || leb num_signals sig || sig == sigkill || sig == sigstop
    then fails einval p
    else if not (is_good act_ptr) || not (is_good oldact_ptr)
    then fails efault p
    else record {
      result = none;
      written =
          if oldact_ptr == 0
          then none
          else some (oldact_ptr, encode_action (p.signal_handlers sig));
      proc = if act_ptr == 0 then p else record p {
        signal_handlers = update p.signal_handlers sig (decode_action (load act_ptr));
      };
    }

-- `match how`, on the mask given without SIGKILL; `none` is EINVAL.
unfoldable pub new_mask : ℕ → ℕ → ℕ → Option ℕ
new_mask how old set =
    if how == 0
    then some (bit_union num_signals old set)
    else if how == 1
    then some (bit_and_not num_signals old set)
    else if how == 2
    then some set
    else none

unfoldable pub masked : (ℕ → ℕ) → ℕ → ℕ → Process → Option ℕ
unfolding new_mask
masked load how set_ptr p =
    if set_ptr == 0
    then some p.blocked_signals
    else new_mask how p.blocked_signals (bit_clear sigkill (load set_ptr))

unfoldable pub sys_sigprocmask : (ℕ → ℕ) → ℕ → ℕ → ℕ → Process → Outcome
unfolding is_good masked
sys_sigprocmask load how set_ptr oldset_ptr p =
    if not (is_good set_ptr) || not (is_good oldset_ptr)
    then fails efault p
    else (elim (masked load how set_ptr p) [
      | none ↦ fails einval p
      | some mask ↦ record {
        result = none;
        written = if oldset_ptr == 0 then none else some (oldset_ptr, p.blocked_signals);
        proc = record p { blocked_signals = mask };
      }
    ])

unfoldable pub sys_sigreturn : Context → Option (ℕ × Context)
unfolding pop_signal_frame
sys_sigreturn d = elim (pop_signal_frame d.tf.rsp d) [ none ↦ none | some e ↦ some (e.tf.rax, e) ]

new_mask-sigkill :
    (how old set mask : ℕ)
    → bit_test sigkill old ≡ false
    → new_mask how old (bit_clear sigkill set) ≡ some mask
    → bit_test sigkill mask ≡ false
unfolding new_mask
new_mask-sigkill how old set mask h e = ground (
  arith,
  bit_test-union 64 sigkill old (bit_clear sigkill set),
  bit_test-and_not 64 sigkill old (bit_clear sigkill set),
  bit_test-bit_clear sigkill sigkill set,
)

-- No sequence of masks blocks SIGKILL: a call of `sigprocmask` by a process that does not block it
-- leaves it unblocked, whatever the arguments.
pub sigprocmask-sigkill :
    (load : ℕ → ℕ) (how set_ptr oldset_ptr : ℕ) (p : Process)
    → bit_test sigkill p.blocked_signals ≡ false
    → bit_test sigkill (sys_sigprocmask load how set_ptr oldset_ptr p).proc.blocked_signals ≡ false
unfolding sys_sigprocmask masked
sigprocmask-sigkill load how set_ptr oldset_ptr p h =
    elim (Option-cases (masked load how set_ptr p)) [
      | inl e ↦ rw (e, sys_sigprocmask) (ground arith)
      | inr (mask, e) ↦
          let kept : bit_test sigkill mask ≡ false = elim (Bool-cases (set_ptr == 0)) [
            | inl z ↦ let e' = some_inj (rw (z, masked) at e) in rw (← e') h
            | inr nz ↦
                new_mask-sigkill how p.blocked_signals (load set_ptr) mask h (rw (nz, masked) at e)
          ] in
          rw (e, sys_sigprocmask) (ground (arith, kept))
    ]

-- No call of `sigaction` changes what SIGKILL and SIGSTOP do.
pub sigaction_protects :
    (load : ℕ → ℕ) (sig act_ptr oldact_ptr : ℕ) (p : Process)
    → ((sys_sigaction load sig act_ptr oldact_ptr p).proc.signal_handlers sigkill
        ≡ p.signal_handlers sigkill)
      × ((sys_sigaction load sig act_ptr oldact_ptr p).proc.signal_handlers sigstop
          ≡ p.signal_handlers sigstop)
unfolding sys_sigaction
sigaction_protects load sig act_ptr oldact_ptr p = ground arith

-- A handler installed by `sigaction` is what the next call reports, unless the call failed.
pub sigaction_reports :
    (load load' : ℕ → ℕ) (sig act_ptr oldact_ptr : ℕ) (p : Process)
    → (sys_sigaction load sig act_ptr 0 p).result ≡ none
    → act_ptr ≢ 0
    → validate_user_buffer oldact_ptr 8 ≡ true
    → (sys_sigaction load' sig 0 oldact_ptr (sys_sigaction load sig act_ptr 0 p).proc).written
      ≡ some (oldact_ptr, load act_ptr)
unfolding sys_sigaction validate_user_buffer
sigaction_reports load load' sig act_ptr oldact_ptr p done given good = ground arith
