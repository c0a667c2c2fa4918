-- ===== src/Proc/Reap/Returns.antt =====
-- What `wait` and `join` of Xv6-Threads/src/proc.c return and leave behind.
use os_wsl.Prelude.{ℕ, ◌≡◌, ◌≢◌, Bool, false, none, [], ◌==◌, if◌then◌else◌}
use os_wsl.Proc.{Proc, unused, sleeping, proc_at, proc_chan}
use os_wsl.Proc.Services.{Services}
use os_wsl.Proc.Create.{Kernel}
use os_wsl.Proc.Reap.{Outcome, returns, sleeps}
use os_wsl.Proc.Reap.Found.{IsFirstZombie}
use os_wsl.Proc.Reap.Cases.{NoZombie}

module _ (v : Services) (cur : ℕ) (k : Kernel v.State) where
  -- The child in slot `n` of those that the call is for has been waited for: the caller has its pid, the slot
  -- is free, and the other parts of the kernel are left as `env` says.
  pub record Reaped (mine : Proc → Bool) (env_is : v.State) (n : ℕ) (out : Outcome × Kernel v.State)
      : Type 0 where
    pub first : IsFirstZombie mine k.procs n
    pub answer : out.0 ≡ returns (proc_at k.procs n).pid
    pub state : (proc_at out.1.procs n).state ≡ unused
    pub cleared :
        ((proc_at out.1.procs n).pid ≡ 0)
        × ((proc_at out.1.procs n).kstack ≡ 0)
        × ((proc_at out.1.procs n).parent ≡ none)
        × ((proc_at out.1.procs n).name ≡ [])
        × ((proc_at out.1.procs n).killed ≡ false)
    pub others : (j : ℕ) → j ≢ n → proc_at out.1.procs j ≡ proc_at k.procs j
    pub env : out.1.env ≡ env_is

  -- The kernel stack and the address space of a process are given back.
  abbrev pub process_freed : ℕ → v.State
  process_freed n = v.freevm (proc_at k.procs n).pgdir (v.kfree (proc_at k.procs n).kstack k.env)

  -- The kernel stack of a thread is given back, and 0 is stored at the address that join was given.
  abbrev pub thread_freed : ℕ → ℕ → v.State
  thread_freed stack n =
      let s = v.kfree (proc_at k.procs n).kstack k.env in
      if stack == 0 then s else v.store (proc_at k.procs cur).pgdir stack 0 s

  -- The caller sleeps on itself, and nothing else has changed.
  pub record Waits (mine : Proc → Bool) (out : Outcome × Kernel v.State) : Type 0 where
    pub alive : NoZombie mine k.procs
    pub spared : (proc_at k.procs cur).killed ≡ false
    pub answer : out.0 ≡ sleeps
    pub state : (proc_at out.1.procs cur).state ≡ sleeping
    pub chan : (proc_at out.1.procs cur).chan ≡ proc_chan cur
    pub others : (j : ℕ) → j ≢ cur → proc_at out.1.procs j ≡ proc_at k.procs j
    pub env : out.1.env ≡ k.env
