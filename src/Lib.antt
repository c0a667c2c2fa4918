-- ===== src/Lib.antt =====
-- A verification library for the operating-system labs of this repository: three trees of the xv6
-- kernel (Xv6-Syscall/src, Xv6-Lottery/src, Xv6-Threads/src), which differ in the system calls they add
-- to one common base. The models follow Xv6-Threads/src, which has the code of the other two; the
-- lottery follows Xv6-Lottery/src, which has the same text.
--
-- The parts, and the files that model them:
-- - Prelude: shared names, lists over the native numbers and what counts their entries, Boolean tests,
--   32-bit words (`u32` wraps at 2 ^ 32; a C `int` is kept as its 32-bit pattern, and `int_le` compares
--   as the signed value).
-- - Proc: Xv6-Threads/src/proc.h and proc.c. The state is `Kernel`: the table `ptable.proc`, `nextpid`,
--   `rng`, `initproc`, and the state of the parts that proc.c calls. Proc.Create has allocproc, fork,
--   clone and userinit; Proc.Reap has wait and join; Proc.Leave has exit, kill, sleep, wakeup and yield;
--   Proc.Scheduler has the lottery and fill_pstat. A function of the model is one critical section of
--   `ptable.lock`: it ends by returning to the caller or by putting it to sleep, and a process that is
--   switched to again goes on as `resume` says. Where fork gives the lock up between two sections, its
--   slot is EMBRYO, of which another section can change `killed` only; the model runs the sections of
--   one fork together.
--   Proc.Services is the interface of the parts that proc.c calls (kalloc.c, vm.c, file.c, fs.c).
--   Proc.Run is the step relation: any number of CPUs enter these sections in any order, any system
--   call or interrupt may wake any channel, and a process that runs may make any call.
--   Proc.Invariant holds what every step keeps.
-- - Pipe: Xv6-Threads/src/pipe.c. A call is modelled from one sleep to the next; Pipe.Queue reads the
--   ring as a queue.
-- - String: Xv6-Threads/src/string.c over a byte-addressed memory. The fuel of `strlen` is a bound on the
--   string; with one more than its length the loop has ended.
-- - Syscall: Xv6-Threads/src/syscall.c (arguments and table) and sysproc.c (the handlers, with growproc
--   of proc.c), over the kernel of Proc and the memory of String.
-- - Shell: Unix_Shell/seush.c, from a line to the commands it runs. `access` is a parameter.
-- - Bio: Xv6-Threads/src/bio.c, the list of buffers in the order of their last use.
-- - Kalloc: Xv6-Threads/src/kalloc.c, the list of free pages. The fuel of `freerange` is the number of
--   pages in the address space.
-- - Spinlock: Xv6-Threads/src/spinlock.c. A schedule is a list of CPUs, each of which makes the next
--   step of `acquire` or `release` at one lock; Spinlock.Nesting has pushcli and popcli on one CPU.
-- - Fs: Xv6-Threads/src/fs.h and fs.c, over the bytes of the blocks of one disk. A buffer that bread gives
--   is the block itself, and log_write and brelse leave it so: that what is logged reaches the disk
--   as a whole is what Log shows, and when log_write panics for want of room in the log is what Log.Ops
--   shows; here it is taken to find room. Fs.Bitmap has balloc and bfree, Fs.Inode the
--   inode on the disk and the blocks of a file (bmap, itrunc), Fs.Content readi and writei, Fs.Dir
--   dirlookup and dirlink, with the iget and iput that they call. The fuel of the loop of readi or writei is the number of bytes, of which each
--   round moves one at least; that of balloc is the number of bitmap blocks, and that of a search of a
--   directory one more than its entries. Fs.Icache has the inode cache and
--   ialloc; the reference count of an inode stands in `Slot`, its other fields in `Inode`. Fs.Names has
--   path names; the fuel of `namex` is one more than the bytes of the path. Panics are `none`.
-- - Grep: Xv6-Threads/src/grep.c. What the reads return is the argument of `grep`.
-- - File: Xv6-Threads/src/file.c, the table of open files with its reference counts, and the loop of
--   filewrite, whose fuel is the number of bytes: each round writes one at least. File.Descriptors has
--   argfd, fdalloc, sys_dup and sys_close of Xv6-Threads/src/sysfile.c over that table.
-- - Log: Xv6-Threads/src/log.c over a disk of blocks and the buffer cache. Its functions give the disk
--   writes they make, in order, so that a crash is a prefix of them. Log.Ops has begin_op, end_op and
--   log_write.
--
-- The recursions are structural, over the process table, the bytes of a call or the blocks of a
-- transaction, but where fuel is named above. The process table has
-- `nproc` slots at boot, and the theorems on a single call hold for a table of any length.
--
-- Not modelled: assembly and boot code, device drivers (console, disk, interrupt controllers), page
-- tables, the other file system calls, sleep locks, exec, the other user programs and the test
-- scripts. Outside Spinlock a critical section is taken to be atomic.
pub mod Prelude
pub mod Proc
pub mod Pipe
pub mod Log
pub mod String
pub mod Syscall
pub mod Shell
pub mod Bio
pub mod Kalloc
pub mod File
pub mod Grep
pub mod Fs
pub mod Spinlock
