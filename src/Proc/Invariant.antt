-- ===== src/Proc/Invariant.antt =====
-- What holds of the process table of Xv6-Threads/src/proc.c between two critical sections of
-- `ptable.lock`, and the kinds of change to the table that keep it.
pub mod Change
pub mod Doze
pub mod Exit
use os_wsl.Prelude.{ℕ, ◌≡◌, ◌≢◌, Bool, true, false, ◌&&◌, none, some, List}
use os_wsl.Proc.{
  Proc, ProcState, unused, sleeping, zombie, Context, at_wait, at_join, proc_chan, proc_at,
  is_zombie,
}
use os_wsl.Proc.Reap.{is_child, is_thread_child}

-- A process that has not exited.
abbrev pub is_alive : ProcState → Bool
is_alive unused = false
is_alive zombie = false
is_alive _ = true

-- No parent pointer dangles: it is null or leads to a process that has not exited.
abbrev pub ParentsLive : List Proc → Type 0
ParentsLive t = (i j : ℕ) → (proc_at t i).parent ≡ some j → is_alive (proc_at t j).state ≡ true

-- The children that a process blocked in `wait` or in `join` waits for.
abbrev pub awaits : Context → ℕ → Proc → Bool
awaits at_wait i p = is_child i p
awaits at_join i p = is_thread_child i p
awaits _ i p = false

abbrev pub waits_for_child : Context → Bool
waits_for_child at_wait = true
waits_for_child at_join = true
waits_for_child _ = false

-- A process that sleeps in `wait` or `join` sleeps on its own slot,
abbrev pub SleepsOnItself : List Proc → Type 0
SleepsOnItself t =
    (i : ℕ)
    → (proc_at t i).state ≡ sleeping
    → waits_for_child (proc_at t i).context ≡ true
    → (proc_at t i).chan ≡ proc_chan i

-- and no child that it waits for is a zombie: no wakeup is lost.
abbrev pub NoLostWakeup : List Proc → Type 0
NoLostWakeup t =
    (i j : ℕ)
    → (proc_at t i).state ≡ sleeping
    → awaits (proc_at t i).context i (proc_at t j) && is_zombie (proc_at t j).state ≡ false

-- `init` is the slot of `initproc`.
pub record Inv (init : ℕ) (t : List Proc) : Type 0 where
  pub parents : ParentsLive t
  pub own_chan : SleepsOnItself t
  pub no_lost : NoLostWakeup t
  pub no_self : (i : ℕ) → (proc_at t i).parent ≢ some i
  pub init_alive : is_alive (proc_at t init).state ≡ true
  pub init_root : (proc_at t init).parent ≡ none
