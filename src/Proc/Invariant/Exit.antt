-- ===== src/Proc/Invariant/Exit.antt =====
-- `exit` of Xv6-Threads/src/proc.c keeps the invariant of the table.
use os_wsl.Prelude.{
  ℕ, ◌<◌, ◌≡◌, ◌≢◌, ◌∙◌, true, false, some, List, arith, length, set, ◌==◌, if◌then◌else◌,
  Bool-cases, inl, inr,
}
use os_wsl.Proc.{
  Proc, Context, at_wait, at_join, sleeping, zombie, proc_chan, at_exit, proc_at, is_zombie,
  same_slot, wake, wakeup1,
}
use os_wsl.Proc.Slots.{proc_at-set, proc_at-wakeup1, length-wakeup1}
use os_wsl.Proc.Create.{Kernel}
use os_wsl.Proc.Leave.Passing.{
  Came, new_parent, in_range, pass_children-Came, pass_children_wakes, length-pass_children,
}
use os_wsl.Proc.Leave.{chan_of, pass_children, exit_table}
use os_wsl.Proc.Invariant.{awaits, waits_for_child, ParentsLive, SleepsOnItself, NoLostWakeup, Inv}
use os_wsl.Proc.Invariant.Change.{wakeup1-Inv, awaits-same}

awaits_own :
    (c : Context) (i : ℕ) (p : Proc)
    → awaits c i p ≡ true
    → (p.parent ≡ some i) × (waits_for_child c ≡ true)
awaits_own at_wait i p h = ground arith
awaits_own at_join i p h = ground arith
awaits_own _ i p h = cc

module _ {S : Type 0} (cur : ℕ) (k : Kernel S) (inside : cur < length k.procs)
    (other : cur ≢ k.initproc) (v : Inv k.initproc k.procs) where
  woken : List Proc
  woken = wakeup1 (chan_of (proc_at k.procs cur).parent) k.procs

  passed : List Proc
  passed = pass_children cur k.initproc (length k.procs) 0 woken

  dead_slot : Proc
  dead_slot = record (proc_at passed cur) { state = zombie; context = at_exit }

  woken-Inv : Inv k.initproc woken
  unfolding woken
  woken-Inv = wakeup1-Inv (chan_of (proc_at k.procs cur).parent) k.procs v

  length-passed : length passed ≡ length k.procs
  unfolding passed woken
  length-passed =
      length-pass_children cur k.initproc woken (length k.procs) 0
      ∙ length-wakeup1 (chan_of (proc_at k.procs cur).parent) k.procs

  length-woken : length woken ≡ length k.procs
  unfolding woken
  length-woken = length-wakeup1 (chan_of (proc_at k.procs cur).parent) k.procs

  passed-Came :
      (j : ℕ)
      → Came cur k.initproc
          (new_parent cur k.initproc (proc_at woken j).parent)
          (proc_at woken j)
          (proc_at passed j)
  unfolding passed
  passed-Came j = ground (
    arith,
    pass_children-Came cur k.initproc woken (length k.procs) 0 j,
    in_range cur k.initproc woken j,
    length-woken,
  )

  -- The parent of the dying process does not wait any more.
  parent_up :
      (a : ℕ)
      → (proc_at woken cur).parent ≡ some a
      → (proc_at woken a).state ≡ sleeping
      → (proc_at woken a).chan ≢ proc_chan a
  unfolding woken wake
  parent_up a h e = ground (
    arith,
    proc_at-wakeup1 (chan_of (proc_at k.procs cur).parent) k.procs a,
    proc_at-wakeup1 (chan_of (proc_at k.procs cur).parent) k.procs cur,
  )

  final : List Proc
  final = set passed cur dead_slot

  final-at : (a : ℕ) → proc_at final a ≡ (if cur == a then dead_slot else proc_at passed a)
  unfolding final
  final-at a = proc_at-set passed cur a dead_slot (omega (arith, length-passed))

  -- The parent of a slot is never the dead one.
  final-ParentsLive : ParentsLive final
  unfolding dead_slot
  final-ParentsLive a b e = ground (
    arith,
    final-at a,
    final-at b,
    passed-Came a,
    passed-Came b,
    woken-Inv.parents a b,
    woken-Inv.init_alive,
  )

  final-SleepsOnItself : SleepsOnItself final
  unfolding dead_slot
  final-SleepsOnItself a = ground (arith, final-at a, passed-Came a, woken-Inv.own_chan a)

  -- The first process does not wait if one of the children handed over is a zombie.
  init_up :
      (b : ℕ)
      → same_slot (proc_at woken b).parent cur ≡ true
      → is_zombie (proc_at woken b).state ≡ true
      → (proc_at passed k.initproc).state ≡ sleeping
      → (proc_at passed k.initproc).chan ≢ proc_chan k.initproc
  unfolding passed
  init_up b own dead e =
      pass_children_wakes cur k.initproc woken (length k.procs) 0 b (omega arith)
        (omega (arith, in_range cur k.initproc woken b own, length-woken)) own dead e

  -- A sleeper that waits for slot `b` does not find it a zombie.
  old_zombie :
      (a b : ℕ)
      → (proc_at passed a).state ≡ sleeping
      → is_zombie (proc_at passed b).state ≡ true
      → awaits (proc_at passed a).context a (proc_at passed b) ≡ false
  old_zombie a b e z = elim (Bool-cases (awaits (proc_at passed a).context a (proc_at passed b))) [
    | inr h ↦ h
    | inl h ↦ ground (
      arith,
      awaits_own (proc_at passed a).context a (proc_at passed b),
      passed-Came a,
      passed-Came b,
      init_up b,
      woken-Inv.own_chan a,
      woken-Inv.no_lost a b,
      awaits-same (proc_at passed a).context a (proc_at passed b) (proc_at woken b),
    )
  ]

  -- A sleeper does not wait for the dying process.
  new_zombie :
      (a : ℕ)
      → (proc_at passed a).state ≡ sleeping
      → awaits (proc_at passed a).context a dead_slot ≡ false
  unfolding dead_slot
  new_zombie a e = elim (Bool-cases (awaits (proc_at passed a).context a dead_slot)) [
    | inr h ↦ h
    | inl h ↦ ground (
      arith,
      awaits_own (proc_at passed a).context a dead_slot,
      passed-Came a,
      passed-Came cur,
      parent_up a,
      woken-Inv.own_chan a,
      woken-Inv.no_self cur,
    )
  ]

  final-NoLostWakeup : NoLostWakeup final
  unfolding dead_slot
  final-NoLostWakeup a b e = ground (arith, final-at a, final-at b, new_zombie a, old_zombie a b)

  final-no_self : (a : ℕ) → (proc_at final a).parent ≢ some a
  unfolding dead_slot
  final-no_self a =
      ground (arith, final-at a, passed-Came a, woken-Inv.no_self a, woken-Inv.init_root)

  pub exit_table-Inv : Inv (exit_table cur k).initproc (exit_table cur k).procs
  unfolding exit_table final dead_slot passed woken
  exit_table-Inv = record {
    parents = final-ParentsLive;
    own_chan = final-SleepsOnItself;
    no_lost = final-NoLostWakeup;
    no_self = final-no_self;
    init_alive = ground (arith, final-at k.initproc, passed-Came k.initproc, woken-Inv.init_alive);
    init_root = ground (arith, final-at k.initproc, passed-Came k.initproc, woken-Inv.init_root);
  }
