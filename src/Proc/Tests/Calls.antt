-- ===== src/Proc/Tests/Calls.antt =====
-- Calls of Xv6-Threads/src/proc.c in small kernels.
use os_wsl.Prelude.{ℕ, ◌⊎◌, refl, true, some, List, [], ◌∷◌}
use os_wsl.Proc.{blank, runnable, running, zombie}
use os_wsl.Proc.Create.{Kernel, fork, clone}
use os_wsl.Proc.Create.Outcome.{Fails, Forks, Clones, fork_cases, clone_cases}
use os_wsl.Proc.Leave.{resume}
use os_wsl.Proc.Scheduler.{scheduler}
use os_wsl.Proc.Tests.{tiny, booted, begun}

fork_cases_example :
    Fails tiny 0 begun (fork tiny 0 begun)
    ⊎ ((i page pgdir : ℕ) × (s s' : List ℕ) × Forks tiny 0 begun i page pgdir s s'
          (fork tiny 0 begun))
unfolding scheduler blank resume
fork_cases_example = fork_cases tiny 0 begun refl

clone_cases_example :
    Fails tiny 0 begun (clone tiny 0 64 3 4 8192 begun)
    ⊎ ((i page : ℕ) × (s : List ℕ) × Clones tiny 0 begun 64 3 4 8192 i page s
          (clone tiny 0 64 3 4 8192 begun))
unfolding scheduler blank resume
clone_cases_example = clone_cases tiny 0 begun 64 3 4 8192 refl

-- A parent, its dead child and a thread that shares the child's address space.
abbrev family : Kernel (List ℕ)
family = record booted {
  procs =
      record blank { state = running; pid = 1 }
      ∷ record blank { state = zombie; pid = 2; parent = some 0; pgdir = 30; kstack = 31 }
      ∷ record blank { state = runnable; pid = 3; parent = some 1; pgdir = 30; isthread = true }
      ∷ record blank { state = zombie; pid = 4; parent = some 0; pgdir = 32; isthread = true }
      ∷ [];
}
