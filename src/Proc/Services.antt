-- ===== src/Proc/Services.antt =====
-- What Xv6-Threads/src/proc.c calls of the other parts of the kernel: the page allocator of
-- kalloc.c, the address spaces of vm.c, the open files of file.c and the inodes of fs.c. They keep
-- their state in one value; a close may wake processes, and answers with the channels it wakes.
use os_wsl.Prelude.{ℕ, ◌≡◌, Option, List}
use os_wsl.Proc.{Chan}

pub record Services : Type 1 where
  pub State : Type 0
  pub kalloc : State → Option ℕ × State
  pub kfree : ℕ → State → State
  pub copyuvm : ℕ → ℕ → State → Option ℕ × State
  pub freevm : ℕ → State → State
  pub filedup : ℕ → State → State
  pub fileclose : ℕ → State → State × List Chan
  pub idup : ℕ → State → State
  pub iput : ℕ → State → State × List Chan
  -- A store of a 32-bit word at a user address, under the page table given first.
  pub store : ℕ → ℕ → ℕ → State → State

-- An answer with its state, from its first half.
pub with_state : {S : Type 0} {a : Option ℕ} (x : Option ℕ × S) → x.0 ≡ a → x ≡ (a, x.1)
with_state x e = λ i. (e i, x.1)
