-- ===== src/Proc/Tests.antt =====
-- Small kernels, at which the theorems on Xv6-Threads/src/proc.c are applied.
mod Rounds
mod Calls
use os_wsl.Prelude.{ℕ, ◌≡◌, Option, none, some, List, [], ◌∷◌}
use os_wsl.Proc.{proc_at}
use os_wsl.Proc.Services.{Services}
use os_wsl.Proc.Create.{Kernel, fork}
use os_wsl.Proc.Reap.{wait}
use os_wsl.Proc.Leave.{resume}
use os_wsl.Proc.Scheduler.{scheduler}
use os_wsl.Proc.Run.Safe.{boot}

-- A kernel whose other parts keep a list of free pages.
abbrev pub pop_page : List ℕ → Option ℕ × List ℕ
pop_page [] = (none, [])
pop_page (p ∷ ps) = (some p, ps)

abbrev pub tiny : Services
tiny = record {
  State = List ℕ;
  kalloc = pop_page;
  kfree = λ p s. p ∷ s;
  copyuvm = λ pgdir sz s. pop_page s;
  freevm = λ pgdir s. pgdir ∷ s;
  filedup = λ f s. s;
  fileclose = λ f s. (s, []);
  idup = λ ip s. s;
  iput = λ ip s. (s, []);
  store = λ pgdir a w s. s;
}

-- From the boot to a parent that waits for its child.
abbrev pub booted : Kernel (List ℕ)
booted = boot tiny 5 9 7 (some 1) (20 ∷ 21 ∷ 22 ∷ [])

abbrev pub picked : Kernel (List ℕ)
picked = (scheduler booted).1

abbrev pub begun : Kernel (List ℕ)
begun = resume (proc_at picked.procs 0).context 0 picked

abbrev pub with_child : Kernel (List ℕ)
with_child = (fork tiny 0 begun).1

abbrev pub waiting : Kernel (List ℕ)
waiting = (wait tiny 0 with_child).1
