-- ===== src/Lib.antt =====
-- ConstanOS, a small operating system in Rust: its process, scheduling and file system core.
--
-- The kernel keeps every process in one of three places of a single `Scheduler`: a run queue per
-- priority, the wait queue (blocked, stopped, and dead but not yet reaped), or the running slot.
-- The timer interrupt, the system calls and the drivers move processes between them, and each
-- switch loads the next process's page table, stacks, FS.base and FPU image. Signals are bits in
-- the process, taken one at a time on the way back to user mode.
--
-- Process.antt: kernel/src/process/mod.rs and trapframe.rs, the process record and its four
--   constructors. Process/Status.antt: `wait_status_word` and `stop_status_word` against the macros
--   of mlibc-port/constanos-sysdeps/include/abi-bits/wait.h.
-- Process/Signal.antt: kernel/src/process/signal.rs. A `Context` is the process, its trap frame
--   and the words of its user stack by address. Process/Signal/Syscalls.antt:
--   kernel/src/process/syscall/signal.rs.
-- Process/Scheduler.antt: the `Scheduler` of kernel/src/process/scheduler.rs. The array of eleven
--   run queues is a function from the index, with the two lists beside it. Under it: Switch (the
--   context switches, with the processor state `Cpu` they write), Wake, Aging (`age_processes`,
--   `tick`), Notify (signals to other processes and waitpid), Ops (the calls as data, and the timer
--   interrupt of kernel/src/process/timer_preempt.rs), and the modules of proofs.
-- Pipe.antt: the byte ring of kernel/src/process/pipe.rs. Pipe/Ends.antt: its two ends on a `World`
--   of the pipe, the scheduler and user memory, with a blocked process's bytes and wakeup. Which
--   pages have frames is the parameter `mapped`. Memory is by address space and address: two areas
--   that share frames are not related.
-- Vma.antt: the memory areas of kernel/src/memory/vma.rs, a list of optional slots.
-- Ipc.antt: kernel/src/ipc/channel.rs. The arrays of the message ring and of the table are functions
--   from the index; an array of bytes is a list.
-- Keys.antt: the two rings of kernel/src/keyboard_buffer.rs, over the element and the capacity
--   (`wrap` is `% CAPACITY`). The interrupt handler may push in the middle of a pop.
-- Frames.antt: the frame counts of kernel/src/memory/cow.rs.
-- Buddy.antt: the physical memory of kernel/src/allocator/buddy_allocator.rs. The list of an order's
--   free blocks is a list of addresses, head first; the bitmap is its bytes by index, at the offsets
--   of the source; a halt on a double free is `none`. The scan of a list stops after 4096 blocks, as
--   in the source, and a region is cut up on fuel of its pages. Under Buddy: Census (in how many free
--   blocks an address is), Allocation, Merging, Bitmap, Backed, Totality and Region for the
--   operations, Service for requests and releases, and History for the states since boot.
-- Timers.antt: the timer queue of kernel/src/time/hrtimer.rs; `partition_point` on its sorted list is
--   the first place behind the timers that expire no later. Tty.antt: kernel/src/tty.rs.
-- Files.antt: seeking and the descriptor table of kernel/src/process/file.rs, over the handles.
-- Ext2.antt: ext2/src, the ext2 file system: Bitmap, Dirent, Superblock (with bgd.rs) and Inode (the
--   record as its bytes) are its formats; Device is the interface of hal/src/block.rs with its laws,
--   and the disk in memory that has them; Volume reads a mounted volume, with Volume/Actions,
--   Allocation, Mapping, Reading and Files for volume.rs; Records scans one block of a directory,
--   and Directory and Listing are the rest of dir.rs; Repair is repair.rs. An operation that writes
--   returns its result with the disk that it leaves, also where it fails; a panic is `halted`. The
--   scans of a directory block run on fuel of its length, those of a file's range on fuel of its
--   bytes, since every turn takes one at least.
-- Prelude.antt: names of the libraries, Boolean tests on numbers, lists by native indices, arrays
--   as functions, the searching calls of Rust's sequences, and words as sets of bits.
-- Examples.antt: the definitions run on concrete inputs.
--
-- Machine words are natural numbers with the wrap-around written out. A boxed process is the
-- record itself; a shared object (`Arc`) is the number that identifies it, since nothing here reads
-- through it. A panic is `none`. `while i < queue.len()` of the aging pass runs on fuel, for each
-- queue one turn for each process in it and one for each boost that is due (`turns`); the pass is
-- proved to return with it whenever the queues are in order. The copies to and from a blocked
-- process go page by page, on fuel of the bytes to copy, since a page takes one at least. The other
-- loops are structural.
--
-- Not modelled: memory behind raw pointers, page tables, assembly stubs, locking (the scheduler's
-- lock makes each call atomic), devices, the virtual file system and the build. User memory is a parameter of
-- the system calls that read it.
pub mod Prelude
pub mod Keys
pub mod Pipe
pub mod Ext2
pub mod Files
pub mod Frames
pub mod Buddy
pub mod Ipc
pub mod Process
pub mod Timers
pub mod Tty
pub mod Vma
pub mod Examples
