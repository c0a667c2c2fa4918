-- ===== src/Syscall/Tests.antt =====
-- Small processes: the theorems on Xv6-Threads/src/syscall.c and sysproc.c at them.
use os_wsl.Prelude.{ℕ, ◌≡◌, some, arith, ◌==◌, if◌then◌else◌, [], ◌∷◌}
use os_wsl.Proc.{blank, running}
use os_wsl.Proc.Create.{Kernel}
use os_wsl.String.{Mem}
use os_wsl.Syscall.{check_ptr}
use os_wsl.Syscall.Arguments.{check_ptr_lem}

-- Every byte holds a 1, but for the zero at 100.
abbrev ones : Mem
ones a = if a == 100 then 0 else 1

check_ptr_lem_example : check_ptr 4096 16 4080 ≡ some 4080
check_ptr_lem_example = check_ptr_lem 4096 16 4080 (omega arith) (omega arith) (omega arith)

abbrev small : Kernel ℕ
small = record {
  procs = record blank { state = running; sz = 4096 } ∷ record blank { pid = 2 } ∷ [];
  nextpid = 3;
  rng = 1;
  initproc = 0;
  env = 7;
}
