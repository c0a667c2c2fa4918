-- ===== src/Syscall.antt =====
-- Xv6-Threads/src/syscall.c: the arguments of a system call, which the kernel reads from the memory of
-- the calling process, and the table of the calls.
pub mod Arguments
pub mod Handlers
pub mod Settings
mod Tests
use os_wsl.Prelude.{
  ℕ, zero, suc, ◌+◌, ◌-◌, ◌*◌, ◌||◌, Option, none, some, List, [], ◌∷◌, get_elem?, u32, ltb, leb,
  ◌==◌, if◌then◌else◌, int_lt, minus_one,
}
use os_wsl.Proc.{Proc, proc_at}
use os_wsl.Proc.Create.{Kernel, put}
use os_wsl.String.{Mem}

-- `KERNBASE` of Xv6-Threads/src/memlayout.h, where the user's half of the address space ends
abbrev pub kernbase : ℕ
kernbase = 2147483648

-- `*(int*)a`
abbrev pub word_at : Mem → ℕ → ℕ
word_at m a = m a + 256 * m (a + 1) + 65536 * m (a + 2) + 16777216 * m (a + 3)

-- `fetchint` for a process of `sz` bytes; `none` is -1.
unfoldable pub fetchint : ℕ → Mem → ℕ → Option ℕ
fetchint sz m a = if leb sz a || ltb sz (u32 (a + 4)) then none else some (word_at m a)

-- The loop of `fetchstr`, with the number of bytes up to `ep`.
unfoldable pub find_zero : ℕ → Mem → ℕ → Option ℕ
find_zero zero m s = none
find_zero (suc n) m s =
    let rest = find_zero n m (s + 1) in
    if m s == 0 then some 0 else elim rest [ none ↦ none | some k ↦ some (suc k) ]

-- `fetchstr`: the length of the string.
unfoldable pub fetchstr : ℕ → Mem → ℕ → Option ℕ
unfolding find_zero
fetchstr sz m a = if leb sz a then none else find_zero (sz - a) m a

unfoldable pub argint : Proc → Mem → ℕ → Option ℕ
unfolding fetchint
argint p m n = fetchint p.sz m (u32 (p.tf.esp + 4 + 4 * n))

-- The checks of `argptr` on the pointer `i`.
unfoldable pub check_ptr : ℕ → ℕ → ℕ → Option ℕ
check_ptr sz size i =
    if int_lt size 0 || (leb sz i || ltb sz (u32 (i + size))) then none else some i

unfoldable pub argptr : Proc → Mem → ℕ → ℕ → Option ℕ
unfolding argint check_ptr
argptr p m n size = elim (argint p m n) [ none ↦ none | some i ↦ check_ptr p.sz size i ]

-- `argstr`: the address and the length.
unfoldable pub argstr : Proc → Mem → ℕ → Option (ℕ × ℕ)
unfolding argint fetchstr
argstr p m n = elim (argint p m n) [
  | none ↦ none
  | some a ↦ elim (fetchstr p.sz m a) [ none ↦ none | some k ↦ some (a, k) ]
]

-- The system calls, with the handlers' names.
pub data Sys : Type 0 where
  sys_fork sys_exit sys_wait sys_pipe sys_read sys_kill sys_exec sys_fstat sys_chdir sys_dup : Sys
  sys_getpid sys_sbrk sys_sleep sys_uptime sys_open sys_write sys_mknod sys_unlink sys_link : Sys
  sys_mkdir sys_close sys_getreadcount sys_settickets sys_getpinfo sys_clone sys_join : Sys

-- The table, from number 1 on; entry 0 is null.
abbrev pub syscalls : List Sys
syscalls =
    sys_fork ∷ sys_exit ∷ sys_wait ∷ sys_pipe ∷ sys_read ∷ sys_kill ∷ sys_exec ∷ sys_fstat
    ∷ sys_chdir ∷ sys_dup ∷ sys_getpid ∷ sys_sbrk ∷ sys_sleep ∷ sys_uptime ∷ sys_open ∷ sys_write
    ∷ sys_mknod ∷ sys_unlink ∷ sys_link ∷ sys_mkdir ∷ sys_close ∷ sys_getreadcount ∷ sys_settickets
    ∷ sys_getpinfo ∷ sys_clone ∷ sys_join ∷ []

-- The handler of a number, an `int`.
unfoldable pub handler_of : ℕ → Option Sys
handler_of zero = none
handler_of (suc n) = if int_lt 0 (suc n) then get_elem? syscalls n else none

abbrev pub set_eax : {S : Type 0} → ℕ → ℕ → Kernel S → Kernel S
set_eax cur r k =
    let p = proc_at k.procs cur in put cur (record p { tf = record (p.tf) { eax = r } }) k

-- `syscall`, with the handlers as a parameter.
unfoldable pub syscall : {S : Type 0} → (Sys → Kernel S → ℕ × Kernel S) → ℕ → Kernel S → Kernel S
unfolding handler_of
syscall handlers cur k = elim (handler_of (proc_at k.procs cur).tf.eax) [
  | none ↦ set_eax cur minus_one k
  | some c ↦ let (r, k') = handlers c k in set_eax cur r k'
]
