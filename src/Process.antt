-- ===== src/Process.antt =====
-- kernel/src/process/mod.rs, trapframe.rs and the data types of signal.rs: processes, their saved
-- registers, and the four ways in which a process is created. Words are natural numbers below
-- their modulus; an `i32` is its bit pattern. An `Arc` is the number that identifies what it
-- points at, and an FPU image is a number that is only moved.
pub mod Status
pub mod Signal
pub mod Scheduler
use rust_so_kernel.Prelude.{
  ℕ, ◌+◌, ◌-◌, ◌*◌, ◌%◌, ◌^◌, ◌≡◌, refl, Option, none, some, Bool, true, false, List, [], ◌∷◌, ◌++◌,
  length, take, drop, replicate, min, ◌==◌, if◌then◌else◌,
}

-- `TrapFrame`, in the order in which the registers lie in memory.
pub record TrapFrame : Type 0 where
  pub r15 : ℕ
  pub r14 : ℕ
  pub r13 : ℕ
  pub r12 : ℕ
  pub r11 : ℕ
  pub r10 : ℕ
  pub r9 : ℕ
  pub r8 : ℕ
  pub rbp : ℕ
  pub rdi : ℕ
  pub rsi : ℕ
  pub rdx : ℕ
  pub rcx : ℕ
  pub rbx : ℕ
  pub rax : ℕ
  pub rip : ℕ
  pub cs : ℕ
  pub rflags : ℕ
  pub rsp : ℕ
  pub ss : ℕ

-- `TrapFrame::default()`
abbrev pub zero_frame : TrapFrame
zero_frame = record {
  r15 = 0;
  r14 = 0;
  r13 = 0;
  r12 = 0;
  r11 = 0;
  r10 = 0;
  r9 = 0;
  r8 = 0;
  rbp = 0;
  rdi = 0;
  rsi = 0;
  rdx = 0;
  rcx = 0;
  rbx = 0;
  rax = 0;
  rip = 0;
  cs = 0;
  rflags = 0;
  rsp = 0;
  ss = 0;
}

pub data ProcessState : Type 0 where
  ready running blocked zombie stopped : ProcessState

pub data WaitTarget : Type 0 where
  target_pid : ℕ → WaitTarget
  target_pgid : ℕ → WaitTarget
  any_child : WaitTarget

-- `WaitTarget::matches`
abbrev pub matches : WaitTarget → ℕ → ℕ → Bool
matches (target_pid p) pid pgid = p == pid
matches (target_pgid g) pid pgid = g == pgid
matches any_child pid pgid = true

pub data PrivilegeLevel : Type 0 where
  kernel user : PrivilegeLevel

pub data SignalAction : Type 0 where
  default ignore : SignalAction
  handler : ℕ → SignalAction

abbrev pub num_signals : ℕ
num_signals = 64

pub record Process : Type 0 where
  pub pid : ℕ
  pub parent_pid : Option ℕ
  pub exit_status : ℕ
  pub state : ProcessState
  pub privilege : PrivilegeLevel
  pub priority : ℕ
  pub effective_priority : ℕ
  pub name : List ℕ
  pub trapframe : TrapFrame
  pub kernel_stack : ℕ
  pub address_space : ℕ
  pub files : ℕ
  pub waiting_for : Option WaitTarget
  pub waiting_options : ℕ
  pub waiting_status_ptr : ℕ
  pub pending_wait_status : Option ℕ
  pub killed_by_signal : Option ℕ
  pub pgid : ℕ
  pub stopped_by_signal : Option ℕ
  pub stop_reported : Bool
  pub fs_base : ℕ
  pub fpu_state : ℕ
  pub is_thread : Bool
  pub owned_stack_vma : Option (ℕ × ℕ)
  pub cwd : List ℕ
  pub exe_name : List ℕ
  pub pending_signals : ℕ
  pub blocked_signals : ℕ
  pub signal_handlers : ℕ → SignalAction

-- `entry.as_u64()`, the stack pointer, and the two segment selectors; every other register is 0.
abbrev start_frame : ℕ → ℕ → ℕ → ℕ → TrapFrame
start_frame entry cs rsp ss = record zero_frame {
  rip = entry;
  cs = cs;
  rflags = 0x200;
  rsp = rsp;
  ss = ss;
}

abbrev root_dir : List ℕ
root_dir = b'/' ∷ []

-- `Process::new_kernel`. `files` is a new table with the standard streams, `fpu` the default image.
unfoldable pub new_kernel : ℕ → ℕ → ℕ → ℕ → ℕ → ℕ → Process
new_kernel pid entry kernel_stack address_space files fpu = record {
  pid = pid;
  parent_pid = none;
  exit_status = 0;
  state = ready;
  privilege = kernel;
  priority = 5;
  effective_priority = 5;
  name = replicate 16 0;
  trapframe = start_frame entry 0x08 (kernel_stack - 8) 0x10;
  kernel_stack = kernel_stack;
  address_space = address_space;
  files = files;
  waiting_for = none;
  waiting_options = 0;
  waiting_status_ptr = 0;
  pending_wait_status = none;
  killed_by_signal = none;
  pgid = pid % 2 ^ 32;
  stopped_by_signal = none;
  stop_reported = false;
  fs_base = 0;
  fpu_state = fpu;
  is_thread = false;
  owned_stack_vma = none;
  cwd = root_dir;
  exe_name = [];
  pending_signals = 0;
  blocked_signals = 0;
  signal_handlers = λ _. default;
}

-- `Process::new_user`
unfoldable pub new_user : ℕ → ℕ → ℕ → ℕ → ℕ → ℕ → ℕ → Process
new_user pid entry user_stack kernel_stack address_space files fpu = record {
  pid = pid;
  parent_pid = none;
  exit_status = 0;
  state = ready;
  privilege = user;
  priority = 5;
  effective_priority = 5;
  name = replicate 16 0;
  trapframe = start_frame entry 0x23 user_stack 0x1b;
  kernel_stack = kernel_stack;
  address_space = address_space;
  files = files;
  waiting_for = none;
  waiting_options = 0;
  waiting_status_ptr = 0;
  pending_wait_status = none;
  killed_by_signal = none;
  pgid = pid % 2 ^ 32;
  stopped_by_signal = none;
  stop_reported = false;
  fs_base = 0;
  fpu_state = fpu;
  is_thread = false;
  owned_stack_vma = none;
  cwd = root_dir;
  exe_name = [];
  pending_signals = 0;
  blocked_signals = 0;
  signal_handlers = λ _. default;
}

-- `Process::new_user_from_fork`: the frame, the directory, the group, the program and the FPU
-- registers are the parent's.
unfoldable pub new_user_from_fork :
    ℕ → ℕ → TrapFrame → ℕ → ℕ → ℕ → List ℕ → ℕ → List ℕ → ℕ → Process
new_user_from_fork pid parent tf kernel_stack address_space files cwd pgid exe fpu = record {
  pid = pid;
  parent_pid = some parent;
  exit_status = 0;
  state = ready;
  privilege = user;
  priority = 5;
  effective_priority = 5;
  name = replicate 16 0;
  trapframe = tf;
  kernel_stack = kernel_stack;
  address_space = address_space;
  files = files;
  waiting_for = none;
  waiting_options = 0;
  waiting_status_ptr = 0;
  pending_wait_status = none;
  killed_by_signal = none;
  pgid = pgid;
  stopped_by_signal = none;
  stop_reported = false;
  fs_base = 0;
  fpu_state = fpu;
  is_thread = false;
  owned_stack_vma = none;
  cwd = cwd;
  exe_name = exe;
  pending_signals = 0;
  blocked_signals = 0;
  signal_handlers = λ _. default;
}

-- `Process::new_thread`: the address space and the file table are the caller's own.
unfoldable pub new_thread :
    ℕ → ℕ → ℕ → ℕ → ℕ → ℕ → ℕ → Option (ℕ × ℕ) → List ℕ → ℕ → List ℕ → ℕ → Process
new_thread pid parent entry stack kernel_stack address_space files vma cwd pgid exe fpu = record {
  pid = pid;
  parent_pid = some parent;
  exit_status = 0;
  state = ready;
  privilege = user;
  priority = 5;
  effective_priority = 5;
  name = replicate 16 0;
  trapframe = start_frame entry 0x23 stack 0x1b;
  kernel_stack = kernel_stack;
  address_space = address_space;
  files = files;
  waiting_for = none;
  waiting_options = 0;
  waiting_status_ptr = 0;
  pending_wait_status = none;
  killed_by_signal = none;
  pgid = pgid;
  stopped_by_signal = none;
  stop_reported = false;
  fs_base = 0;
  fpu_state = fpu;
  is_thread = true;
  owned_stack_vma = vma;
  cwd = cwd;
  exe_name = exe;
  pending_signals = 0;
  blocked_signals = 0;
  signal_handlers = λ _. default;
}

-- `Process::set_name`: at most 15 bytes, over what the array holds.
unfoldable pub set_name : List ℕ → Process → Process
set_name bytes p = record p { name = take 15 bytes ++ drop (min (length bytes) 15) p.name }

-- `Process::set_priority`
unfoldable pub set_priority : ℕ → Process → Process
set_priority n p = let m = min n 10 in record p { priority = m; effective_priority = m }

-- `Process::wait_status_word`, an `i32` as its bit pattern.
unfoldable pub wait_status_word : Process → ℕ
wait_status_word p = elim p.killed_by_signal [
  | some sig ↦ sig % 256 * 2 ^ 24 + 0x400
  | none ↦ 0x200 + p.exit_status % 256
]

-- `Process::stop_status_word`
unfoldable pub stop_status_word : Process → ℕ
stop_status_word p = elim p.stopped_by_signal [
  | some sig ↦ 0x800 + sig % 256 * 2 ^ 16
  | none ↦ 0x200
]
