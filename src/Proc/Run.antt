-- ===== src/Proc/Run.antt =====
-- Runs of the kernel of Xv6-Threads/src: any number of CPUs, whose processes enter the critical
-- sections of Xv6-Threads/src/proc.c in any order. A process that runs may make any call; a system
-- call or an interrupt may wake any channel.
pub mod Keeping
pub mod Calls
pub mod Closing
pub mod Safe
use os_wsl.Prelude.{ℕ, ◌≡◌, ◌≢◌}
use os_wsl.Proc.{Chan, addr, running, live, proc_at}
use os_wsl.Proc.Services.{Services}
use os_wsl.Proc.Create.{Kernel, fork, clone}
use os_wsl.Proc.Reap.{wait, join}
use os_wsl.Proc.Leave.{exit_files, exit_table, yield, sleep, wakeup, kill, resume}
use os_wsl.Proc.Scheduler.{scheduler}

-- Slot `cur` runs, in the code of a system call.
pub record Runs {S : Type 0} (cur : ℕ) (k : Kernel S) : Type 0 where
  pub on_cpu : (proc_at k.procs cur).state ≡ running
  pub in_call : (proc_at k.procs cur).context ≡ live

pub data Step (v : Services) : Kernel v.State → Kernel v.State → Type 0 where
  schedule : (k : Kernel v.State) → Step v k (scheduler k).1
  awake : (c : Chan) (k : Kernel v.State) → Step v k (wakeup c k)
  resumes :
      (cur : ℕ) (k : Kernel v.State)
      → (proc_at k.procs cur).state ≡ running
      → Step v k (resume (proc_at k.procs cur).context cur k)
  forks : (cur : ℕ) (k : Kernel v.State) → Runs cur k → Step v k (fork v cur k).1
  clones :
      (cur fcn arg1 arg2 stack : ℕ) (k : Kernel v.State)
      → Runs cur k
      → Step v k (clone v cur fcn arg1 arg2 stack k).1
  waits : (cur : ℕ) (k : Kernel v.State) → Runs cur k → Step v k (wait v cur k).1
  joins : (cur stack : ℕ) (k : Kernel v.State) → Runs cur k → Step v k (join v stack cur k).1
  yields : (cur : ℕ) (k : Kernel v.State) → Runs cur k → Step v k (yield cur k)
  dozes : (cur a : ℕ) (k : Kernel v.State) → Runs cur k → Step v k (sleep (addr a) cur k)
  kills : (cur pid : ℕ) (k : Kernel v.State) → Runs cur k → Step v k (kill pid k).1
  closes : (cur : ℕ) (k : Kernel v.State) → Runs cur k → Step v k (exit_files v cur k)
  dies :
      (cur : ℕ) (k : Kernel v.State) → Runs cur k → cur ≢ k.initproc → Step v k (exit_table cur k)

pub data Reach (v : Services) (k : Kernel v.State) : Kernel v.State → Type 0 where
  here : Reach v k k
  next : {k' k'' : Kernel v.State} → Reach v k k' → Step v k' k'' → Reach v k k''
