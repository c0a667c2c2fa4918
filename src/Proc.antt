-- ===== src/Proc.antt =====
-- Xv6-Threads/src/proc.h and the process table of Xv6-Threads/src/proc.c (Xv6-Lottery/src has the
-- same code without threads): `struct proc`, and the scans of `ptable.proc` under `ptable.lock`.
-- A pointer to a process is its slot in the table, and the null pointer is `none`.
pub mod Slots
pub mod Services
pub mod Create
pub mod Reap
pub mod Leave
pub mod Scheduler
pub mod Invariant
pub mod Run
mod Tests
use os_wsl.Prelude.{
  ℕ, suc, Bool, true, false, ◌&&◌, Option, none, some, List, [], ◌∷◌, map, get_or, ◌==◌,
  if◌then◌else◌,
}

-- `enum procstate`
pub data ProcState : Type 0 where
  unused embryo sleeping runnable running zombie : ProcState

abbrev pub is_unused : ProcState → Bool
is_unused unused = true
is_unused _ = false

abbrev pub is_sleeping : ProcState → Bool
is_sleeping sleeping = true
is_sleeping _ = false

abbrev pub is_runnable : ProcState → Bool
is_runnable runnable = true
is_runnable _ = false

abbrev pub is_zombie : ProcState → Bool
is_zombie zombie = true
is_zombie _ = false

-- What a `void *chan` may be: null, the address of a process, or another kernel address.
pub data Chan : Type 0 where
  null : Chan
  proc_chan : ℕ → Chan
  addr : ℕ → Chan

abbrev pub chan_eq : Chan → Chan → Bool
chan_eq null null = true
chan_eq (proc_chan i) (proc_chan j) = i == j
chan_eq (addr a) (addr b) = a == b
chan_eq _ _ = false

-- Where the kernel code of a process goes on when it is switched to: its saved `context`. `live` is
-- the context of a process that runs, which nobody has saved.
pub data Context : Type 0 where
  live at_forkret at_yield at_sleep at_wait at_join at_exit : Context

-- `struct trapframe`, the user registers
pub record Trapframe : Type 0 where
  pub edi : ℕ
  pub esi : ℕ
  pub ebp : ℕ
  pub ebx : ℕ
  pub edx : ℕ
  pub ecx : ℕ
  pub eax : ℕ
  pub gs : ℕ
  pub fs : ℕ
  pub es : ℕ
  pub ds : ℕ
  pub trapno : ℕ
  pub err : ℕ
  pub eip : ℕ
  pub cs : ℕ
  pub eflags : ℕ
  pub esp : ℕ
  pub ss : ℕ

-- `struct proc`. Page tables and kernel stacks are addresses; an entry of `ofile` is the file that
-- the descriptor refers to.
pub record Proc : Type 0 where
  pub sz : ℕ
  pub pgdir : ℕ
  pub kstack : ℕ
  pub state : ProcState
  pub pid : ℕ
  pub parent : Option ℕ
  pub tf : Trapframe
  pub context : Context
  pub chan : Chan
  pub killed : Bool
  pub ofile : List (Option ℕ)
  pub cwd : Option ℕ
  pub name : List ℕ
  pub tickets : ℕ
  pub ticks : ℕ
  pub isthread : Bool

-- `NPROC` of Xv6-Threads/src/param.h
abbrev pub nproc : ℕ
nproc = 64

unfoldable pub zero_frame : Trapframe
zero_frame = record {
  edi = 0;
  esi = 0;
  ebp = 0;
  ebx = 0;
  edx = 0;
  ecx = 0;
  eax = 0;
  gs = 0;
  fs = 0;
  es = 0;
  ds = 0;
  trapno = 0;
  err = 0;
  eip = 0;
  cs = 0;
  eflags = 0;
  esp = 0;
  ss = 0;
}

-- A slot of `ptable` as the kernel starts: static storage, all zero.
unfoldable pub blank : Proc
blank = record {
  sz = 0;
  pgdir = 0;
  kstack = 0;
  state = unused;
  pid = 0;
  parent = none;
  tf = zero_frame;
  context = live;
  chan = null;
  killed = false;
  ofile = [];
  cwd = none;
  name = [];
  tickets = 0;
  ticks = 0;
  isthread = false;
}

abbrev pub proc_at : List Proc → ℕ → Proc
proc_at t i = get_or t i blank

abbrev pub same_slot : Option ℕ → ℕ → Bool
same_slot none i = false
same_slot (some j) i = j == i

-- The loop of `allocproc`: the first slot that is UNUSED.
unfoldable pub find_unused : List Proc → Option ℕ
find_unused [] = none
find_unused (p ∷ t) =
    if is_unused p.state
    then some 0
    else elim (find_unused t) [ none ↦ none | some i ↦ some (suc i) ]

-- The body of the loop of `wakeup1`.
unfoldable pub wake : Chan → Proc → Proc
wake c p = if is_sleeping p.state && chan_eq p.chan c then record p { state = runnable } else p

-- `wakeup1`, and `wakeup` under the lock
unfoldable pub wakeup1 : Chan → List Proc → List Proc
wakeup1 c t = map (wake c) t
