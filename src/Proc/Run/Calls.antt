-- ===== src/Proc/Run/Calls.antt =====
-- `wait`, `join`, `fork` and `clone` of Xv6-Threads/src/proc.c keep the invariant of the process table.
use os_wsl.Prelude.{
  ℕ, ◌<◌, ◌≡◌, refl, Bool, true, false, ◌&&◌, some, List, arith, length, ◌==◌, if◌then◌else◌,
  Option-cases, inl, inr,
}
use os_wsl.Proc.{
  Proc, Context, running, runnable, unused, blank, at_wait, at_join, proc_at, is_zombie,
  find_unused,
}
use os_wsl.Proc.Slots.{find_unused-some, find_unused-ne}
use os_wsl.Proc.Services.{Services, with_state}
use os_wsl.Proc.Create.{Kernel, claim, fork, clone}
use os_wsl.Proc.Create.Made
use os_wsl.Proc.Reap.{
  Outcome, Scan, zombie_at, kids, no_kids, scan_from, is_child, is_thread_child, no_zombie, wait_on,
  wait, join_on, join, freed,
}
use os_wsl.Proc.Reap.Found.{scan_from-zombie_at, scan_from-kids}
use os_wsl.Proc.Invariant.{awaits}
use os_wsl.Proc.Invariant.Change.{Keeps, set-Inv}
use os_wsl.Proc.Invariant.Doze.{doze-Inv}
use os_wsl.Proc.Run.{Runs}
use os_wsl.Proc.Run.Keeping.{Good, running-inside}

-- A zombie's slot may be freed.
freed-Keeps :
    (t : List Proc) (i : ℕ)
    → i < length t
    → is_zombie (proc_at t i).state ≡ true
    → Keeps t i (freed (proc_at t i))
freed-Keeps t i lt dead = record {
  inside = lt;
  lives = ground arith;
  kin = inr (inl refl);
  dead = ground arith;
  no_wait = ground arith;
}

blank_child : (cur : ℕ) → is_child cur blank ≡ false
unfolding blank
blank_child cur = refl

blank_thread : (cur : ℕ) → is_thread_child cur blank ≡ false
unfolding blank
blank_thread cur = refl

if-Good :
    {S : Type 0} (b : Bool) (x y : Outcome × Kernel S)
    → Good x.1
    → Good y.1
    → Good (if b then x else y).1
if-Good true x y g h = g
if-Good false x y g h = h

-- With no zombie among the children that `c` waits for, the caller may sleep.
no_zombie-Good :
    {S : Type 0} (c : Context) (cur : ℕ) (k : Kernel S)
    → Runs cur k
    → Good k
    → ((j : ℕ) → awaits c cur (proc_at k.procs j) && is_zombie (proc_at k.procs j).state ≡ false)
    → Good (no_zombie true c cur k).1
unfolding no_zombie
no_zombie-Good c cur k r g none_dead =
    if-Good (proc_at k.procs cur).killed _ _ g
      (doze-Inv k.procs cur c (running-inside k.procs cur r.on_cpu) r.on_cpu none_dead g)

module _ (v : Services) (cur : ℕ) (k : Kernel v.State) (r : Runs cur k) (g : Good k) where
  wait_on-Good :
      (s : Scan) → scan_from (is_child cur) k.procs false 0 ≡ s → Good (wait_on v s cur k).1
  unfolding wait_on
  wait_on-Good (zombie_at i) e =
      let (n, at, f) = scan_from-zombie_at (is_child cur) k.procs false 0 i e in
      let same : i ≡ n = omega arith in
      rw same (set-Inv k.procs n _ (freed-Keeps k.procs n f.inside f.dead) g)
  wait_on-Good kids e =
      no_zombie-Good at_wait cur k r g
        (λ j. scan_from-kids (is_child cur) k.procs false 0 j (blank_child cur) e)
  wait_on-Good no_kids e = g

  pub wait-Good : Good (wait v cur k).1
  unfolding wait
  wait-Good = wait_on-Good (scan_from (is_child cur) k.procs false 0) refl

  join_on-Good :
      (s : Scan) (stack : ℕ)
      → scan_from (is_thread_child cur) k.procs false 0 ≡ s
      → Good (join_on v s stack cur k).1
  unfolding join_on
  join_on-Good (zombie_at i) stack e =
      let (n, at, f) = scan_from-zombie_at (is_thread_child cur) k.procs false 0 i e in
      let same : i ≡ n = omega arith in
      rw same (set-Inv k.procs n _ (freed-Keeps k.procs n f.inside f.dead) g)
  join_on-Good kids stack e =
      no_zombie-Good at_join cur k r g
        (λ j. scan_from-kids (is_thread_child cur) k.procs false 0 j (blank_thread cur) e)
  join_on-Good no_kids stack e = g

  pub join-Good : (stack : ℕ) → Good (join v stack cur k).1
  unfolding join
  join-Good stack = join_on-Good (scan_from (is_thread_child cur) k.procs false 0) stack refl

-- A free slot may become any process that is alive with a live parent, or be free again.
born-Keeps :
    (t : List Proc) (i cur : ℕ) (p : Proc)
    → find_unused t ≡ some i
    → (proc_at t cur).state ≡ running
    → p.parent ≡ some cur
    → p.state ≡ runnable
    → Keeps t i p
born-Keeps t i cur p free runs parent state =
    let (lt, was) = find_unused-some t i free in
    record {
      inside = lt;
      lives = λ e. rw state;
      kin = inr (inr (cur, parent, rw runs, ground arith));
      dead = ground arith;
      no_wait = ground arith;
    }

unborn-Keeps :
    (t : List Proc) (i : ℕ) (p : Proc)
    → find_unused t ≡ some i
    → p.parent ≡ (proc_at t i).parent
    → p.state ≡ unused
    → Keeps t i p
unborn-Keeps t i p free parent state =
    let (lt, was) = find_unused-some t i free in
    record {
      inside = lt;
      lives = ground arith;
      kin = inl parent;
      dead = ground arith;
      no_wait = ground arith;
    }

module _ (v : Services) (cur : ℕ) (k : Kernel v.State) (r : Runs cur k) (g : Good k) where
  pub fork-Good : Good (fork v cur k).1
  unfolding claim
  fork-Good = elim (Option-cases (find_unused k.procs)) [
    | inl full ↦ rw (Made.fork_full v cur k full) g
    | inr (i, free) ↦
        let ne = find_unused-ne k.procs i cur free (rw r.on_cpu) in
        elim (Option-cases (v.kalloc k.env).0) [
          | inl out ↦
              rw (Made.fork_no_stack v cur i k free ne (v.kalloc k.env).1 (with_state _ out))
                (set-Inv k.procs i _ (unborn-Keeps k.procs i _ free refl refl) g)
          | inr (page, got) ↦ fork_copies i free ne page got
        ]
  ]
    where
      fork_copies :
          (i : ℕ) (free : find_unused k.procs ≡ some i) (ne : (i == cur) ≡ false) (page : ℕ)
          → (v.kalloc k.env).0 ≡ some page
          → Good (fork v cur k).1
      fork_copies i free ne page got =
          let s = (v.kalloc k.env).1 in
          let copied = v.copyuvm (proc_at k.procs cur).pgdir (proc_at k.procs cur).sz s in
          elim (Option-cases copied.0) [
            | inl out ↦
                rw
                  (Made.fork_no_copy v cur i k free ne page s copied.1 (with_state _ got)
                    (with_state _ out))
                  (set-Inv k.procs i _ (unborn-Keeps k.procs i _ free refl refl) g)
            | inr (pgdir, made) ↦
                rw
                  (Made.fork-eq v cur i k free ne page pgdir s copied.1 (with_state _ got)
                    (with_state _ made))
                  (set-Inv k.procs i _ (born-Keeps k.procs i cur _ free r.on_cpu refl refl) g)
          ]

  pub clone-Good : (fcn arg1 arg2 stack : ℕ) → Good (clone v cur fcn arg1 arg2 stack k).1
  unfolding claim
  clone-Good fcn arg1 arg2 stack = elim (Option-cases (find_unused k.procs)) [
    | inl full ↦ rw (Made.clone_full v cur fcn arg1 arg2 stack k full) g
    | inr (i, free) ↦
        let ne = find_unused-ne k.procs i cur free (rw r.on_cpu) in
        let s = (v.kalloc k.env).1 in
        elim (Option-cases (v.kalloc k.env).0) [
          | inl out ↦
              rw (Made.clone_no_stack v cur i k free ne fcn arg1 arg2 stack s (with_state _ out))
                (set-Inv k.procs i _ (unborn-Keeps k.procs i _ free refl refl) g)
          | inr (page, got) ↦
              rw (Made.clone-eq v cur i k free ne fcn arg1 arg2 stack page s (with_state _ got))
                (set-Inv k.procs i _ (born-Keeps k.procs i cur _ free r.on_cpu refl refl) g)
        ]
  ]
