-- ===== src/Syscall/Handlers.antt =====
-- The handlers of Xv6-Threads/src/sysproc.c, and `growproc` of Xv6-Threads/src/proc.c. The memory is
-- that of the calling process `cur`.
use os_wsl.Prelude.{
  ℕ, ◌+◌, ◌-◌, Bool, Option, none, some, u32, ltb, ◌==◌, if◌then◌else◌, int_lt, minus_one,
}
use os_wsl.Proc.{proc_at}
use os_wsl.Proc.Services.{Services}
use os_wsl.Proc.Create.{Kernel, put, fork, clone}
use os_wsl.Proc.Reap.{Outcome, returns, wait, join}
use os_wsl.Proc.Leave.{kill, exit}
use os_wsl.Proc.Scheduler.{Pstat, fill_pstat}
use os_wsl.String.{Mem}
use os_wsl.Syscall.{argint, argptr}

-- `sizeof(struct pstat)`: four arrays of NPROC ints
abbrev pub pstat_size : ℕ
pstat_size = 1024

-- `sys_settickets`, from its argument on.
unfoldable pub set_tickets : {S : Type 0} → ℕ → Option ℕ → Kernel S → ℕ × Kernel S
set_tickets cur none k = (minus_one, k)
set_tickets cur (some n) k =
    if int_lt n 1
    then (minus_one, k)
    else (0, put cur (record (proc_at k.procs cur) { tickets = n }) k)

unfoldable pub sys_settickets : {S : Type 0} → ℕ → Mem → Kernel S → ℕ × Kernel S
unfolding argint set_tickets
sys_settickets cur m k = set_tickets cur (argint (proc_at k.procs cur) m 0) k

-- The answer, with the address at which the table is stored, and the table.
unfoldable pub sys_getpinfo : {S : Type 0} → ℕ → Mem → Kernel S → ℕ × Option (ℕ × Pstat)
unfolding argptr fill_pstat
sys_getpinfo cur m k = elim (argptr (proc_at k.procs cur) m 0 pstat_size) [
  | none ↦ (minus_one, none)
  | some a ↦ (0, some (a, fill_pstat k.procs))
]

unfoldable pub sys_getpid : {S : Type 0} → ℕ → Kernel S → ℕ
sys_getpid cur k = (proc_at k.procs cur).pid

unfoldable pub sys_kill : {S : Type 0} → ℕ → Mem → Kernel S → ℕ × Kernel S
unfolding argint kill
sys_kill cur m k = elim (argint (proc_at k.procs cur) m 0) [
  | none ↦ (minus_one, k)
  | some pid ↦ kill pid k
]

-- How a pass of the loop of `sys_sleep` ends; it sleeps on `&ticks`.
pub data SleepEnd : Type 0 where
  slept interrupted sleeps_on : SleepEnd

-- A pass of that loop: `ticks - ticks0 < n` compares as `uint`.
unfoldable pub sleep_pass : ℕ → ℕ → ℕ → Bool → SleepEnd
sleep_pass ticks ticks0 n killed =
    if ltb (u32 (ticks + 4294967296 - ticks0)) n
    then (if killed then interrupted else sleeps_on)
    else slept

module _ (v : Services) where
  open v use {State}

  unfoldable pub sys_fork : ℕ → Kernel State → ℕ × Kernel State
  unfolding fork
  sys_fork cur k = fork v cur k

  unfoldable pub sys_wait : ℕ → Kernel State → Outcome × Kernel State
  unfolding wait
  sys_wait cur k = wait v cur k

  unfoldable pub sys_exit : ℕ → Kernel State → Option (Kernel State)
  unfolding exit
  sys_exit cur k = exit v cur k

  unfoldable pub sys_clone : ℕ → Mem → Kernel State → ℕ × Kernel State
  unfolding argint clone
  sys_clone cur m k =
      let p = proc_at k.procs cur in
      elim (argint p m 0) [
        | none ↦ (minus_one, k)
        | some fcn ↦ elim (argint p m 1) [
          | none ↦ (minus_one, k)
          | some arg1 ↦ elim (argint p m 2) [
            | none ↦ (minus_one, k)
            | some arg2 ↦ elim (argint p m 3) [
              | none ↦ (minus_one, k)
              | some stack ↦ clone v cur fcn arg1 arg2 stack k
            ]
          ]
        ]
      ]

  unfoldable pub sys_join : ℕ → Mem → Kernel State → Outcome × Kernel State
  unfolding argint join
  sys_join cur m k = elim (argint (proc_at k.procs cur) m 0) [
    | none ↦ (returns minus_one, k)
    | some stack ↦ join v stack cur k
  ]

-- `allocuvm` and `deallocuvm` of Xv6-Threads/src/vm.c: the page table, the old size and the new one.
abbrev pub Resize : Type 0 → Type 0
Resize S = ℕ → ℕ → ℕ → S → ℕ × S

unfoldable pub resized : {S : Type 0} → ℕ → ℕ × S → Kernel S → ℕ × Kernel S
resized cur (sz, s) k =
    let k' : Kernel _ = record k { env = s } in
    if sz == 0 then (minus_one, k') else (0, put cur (record (proc_at k.procs cur) { sz = sz }) k')

unfoldable pub growproc : {S : Type 0} → Resize S → Resize S → ℕ → ℕ → Kernel S → ℕ × Kernel S
unfolding resized
growproc allocuvm deallocuvm n cur k =
    let p = proc_at k.procs cur in
    if n == 0
    then (0, k)
    else (if int_lt 0 n
        then resized cur (allocuvm p.pgdir p.sz (u32 (p.sz + n)) k.env) k
        else resized cur (deallocuvm p.pgdir p.sz (u32 (p.sz + n)) k.env) k)

unfoldable pub sys_sbrk : {S : Type 0} → Resize S → Resize S → ℕ → Mem → Kernel S → ℕ × Kernel S
unfolding argint growproc
sys_sbrk allocuvm deallocuvm cur m k = elim (argint (proc_at k.procs cur) m 0) [
  | none ↦ (minus_one, k)
  | some n ↦
      let (r, k') = growproc allocuvm deallocuvm n cur k in
      if int_lt r 0 then (minus_one, k') else ((proc_at k.procs cur).sz, k')
]
