-- ===== src/Proc/Reap.antt =====
-- `wait` and `join` of Xv6-Threads/src/proc.c. One pass over the table is one critical section of
-- `ptable.lock`: it returns to the caller, or it puts the caller to sleep and is run again from the
-- top when the caller is switched to next.
pub mod Found
pub mod Cases
pub mod Returns
use os_wsl.Prelude.{
  ℕ, ◌+◌, Bool, true, false, not, ◌&&◌, ◌||◌, none, List, [], ◌∷◌, minus_one, ◌==◌, if◌then◌else◌,
}
use os_wsl.Proc.{
  Proc, Chan, Context, unused, sleeping, proc_chan, at_wait, at_join, is_zombie, same_slot, proc_at,
}
use os_wsl.Proc.Services.{Services}
use os_wsl.Proc.Create.{Kernel, put}

-- What the pass over the children found.
pub data Scan : Type 0 where
  zombie_at : ℕ → Scan
  kids no_kids : Scan

pub data Outcome : Type 0 where
  returns : ℕ → Outcome
  sleeps : Outcome

-- The inner loop, over the slots from `i` on; `havekids` is what the slots before have shown.
unfoldable pub scan_from : (Proc → Bool) → List Proc → Bool → ℕ → Scan
scan_from mine [] havekids i = if havekids then kids else no_kids
scan_from mine (p ∷ t) havekids i =
    let rest = scan_from mine t (havekids || mine p) (i + 1) in
    if mine p && is_zombie p.state then zombie_at i else rest

-- A child of `wait`, and a child of `join`.
abbrev pub is_child : ℕ → Proc → Bool
is_child cur p = same_slot p.parent cur && not p.isthread

abbrev pub is_thread_child : ℕ → Proc → Bool
is_thread_child cur p = same_slot p.parent cur && p.isthread

-- The slot of a child that has been waited for.
abbrev pub freed : Proc → Proc
freed p = record p { kstack = 0; pid = 0; parent = none; name = []; killed = false; state = unused }

-- `sleep(chan, &ptable.lock)` up to the call of `sched`
unfoldable pub go_to_sleep : {S : Type 0} → Context → Chan → ℕ → Kernel S → Kernel S
go_to_sleep c chan cur k =
    put cur (record (proc_at k.procs cur) { chan = chan; state = sleeping; context = c }) k

-- The end of a pass that found no zombie.
unfoldable pub no_zombie : {S : Type 0} → Bool → Context → ℕ → Kernel S → Outcome × Kernel S
unfolding go_to_sleep
no_zombie havekids c cur k =
    if not havekids || (proc_at k.procs cur).killed
    then (returns minus_one, k)
    else (sleeps, go_to_sleep c (proc_chan cur) cur k)

module _ (v : Services) where
  open v use {State, kfree, freevm, store}

  unfoldable pub reap : ℕ → Kernel State → Outcome × Kernel State
  reap i k =
      let p = proc_at k.procs i in
      (returns p.pid, record (put i (freed p) k) { env = freevm p.pgdir (kfree p.kstack k.env) })

  unfoldable pub wait_on : Scan → ℕ → Kernel State → Outcome × Kernel State
  unfolding reap no_zombie
  wait_on (zombie_at i) cur k = reap i k
  wait_on kids cur k = no_zombie true at_wait cur k
  wait_on no_kids cur k = no_zombie false at_wait cur k

  unfoldable pub wait : ℕ → Kernel State → Outcome × Kernel State
  unfolding wait_on scan_from
  wait cur k = wait_on (scan_from (is_child cur) k.procs false 0) cur k

  unfoldable pub reap_thread : ℕ → ℕ → ℕ → Kernel State → Outcome × Kernel State
  reap_thread stack i cur k =
      let p = proc_at k.procs i in
      let s = kfree p.kstack k.env in
      let pgdir = (proc_at k.procs cur).pgdir in
      (
        returns p.pid,
        record (put i (freed p) k) { env = if stack == 0 then s else store pgdir stack 0 s },
      )

  unfoldable pub join_on : Scan → ℕ → ℕ → Kernel State → Outcome × Kernel State
  unfolding reap_thread no_zombie
  join_on (zombie_at i) stack cur k = reap_thread stack i cur k
  join_on kids stack cur k = no_zombie true at_join cur k
  join_on no_kids stack cur k = no_zombie false at_join cur k

  unfoldable pub join : ℕ → ℕ → Kernel State → Outcome × Kernel State
  unfolding join_on scan_from
  join stack cur k = join_on (scan_from (is_thread_child cur) k.procs false 0) stack cur k
