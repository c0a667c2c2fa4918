-- ===== src/Proc/Run/Safe.antt =====
-- What every run of the kernel of Xv6-Threads/src/proc.c keeps.
use os_wsl.Prelude.{
  ℕ, zero, suc, ◌≡◌, refl, ap, sym, ◌∙◌, true, false, ◌&&◌, Option, none, some, ◌∷◌, arith,
  replicate, if◌then◌else◌, ◌==◌, ◌≢◌,
}
use mathlib.Core.Path.{subst}
use os_wsl.Proc.{Proc, sleeping, runnable, blank, proc_at, is_zombie, nproc, at_forkret}
use os_wsl.Proc.Services.{Services}
use os_wsl.Proc.Create.{Kernel, first_frame, initcode, userinit}
use os_wsl.Proc.Invariant.{is_alive, awaits, Inv}
use os_wsl.Proc.Invariant.Change.{wakeup1-Inv}
use os_wsl.Proc.Invariant.Exit.{exit_table-Inv}
use os_wsl.Proc.Run.{
  Step, Reach, schedule, awake, resumes, forks, clones, waits, joins, yields, dozes, kills, closes,
  dies, here, next,
}
use os_wsl.Proc.Run.Keeping.{
  Good, running-inside, yield-Good, sleep-Good, resume-Good, scheduler-Good, kill-Good,
}
use os_wsl.Proc.Run.Calls.{wait-Good, join-Good, fork-Good, clone-Good}
use os_wsl.Proc.Run.Closing.{exit_files-Good}
use os_wsl.Proc.Leave.{wakeup}

module _ (v : Services) where
  -- Each step of the kernel keeps the invariant of the process table.
  pub Step-Good : {k k' : Kernel v.State} → Step v k k' → Good k → Good k'
  unfolding wakeup
  Step-Good (schedule k) g = scheduler-Good k g
  Step-Good (awake c k) g = wakeup1-Inv c k.procs g
  Step-Good (resumes cur k r) g = resume-Good (proc_at k.procs cur).context cur k r g
  Step-Good (forks cur k r) g = fork-Good v cur k r g
  Step-Good (clones cur fcn arg1 arg2 stack k r) g = clone-Good v cur k r g fcn arg1 arg2 stack
  Step-Good (waits cur k r) g = wait-Good v cur k r g
  Step-Good (joins cur stack k r) g = join-Good v cur k r g stack
  Step-Good (yields cur k r) g = yield-Good cur k r g
  Step-Good (dozes cur a k r) g = sleep-Good cur a k r g
  Step-Good (kills cur pid k r) g = kill-Good pid k g
  Step-Good (closes cur k r) g = exit_files-Good v cur k r g
  Step-Good (dies cur k r other) g =
      exit_table-Inv cur k (running-inside k.procs cur r.on_cpu) other g

  pub Reach-Good : {k k' : Kernel v.State} → Good k → Reach v k k' → Good k'
  Reach-Good g here = g
  Reach-Good g (next r s) = Step-Good s (Reach-Good g r)

  -- The kernel before `userinit`: an empty table.
  abbrev pub cold : ℕ → v.State → Kernel v.State
  cold rng env = record {
    procs = replicate nproc blank;
    nextpid = 1;
    rng = rng;
    initproc = 0;
    env = env;
  }

  blank_at : (n i : ℕ) → proc_at (replicate n blank) i ≡ blank
  blank_at zero i = refl
  blank_at (suc n) zero = refl
  blank_at (suc n) (suc i) = blank_at n i

  lone_at : (p : Proc) (n i : ℕ) → proc_at (p ∷ replicate n blank) i ≡ (if i == 0 then p else blank)
  lone_at p n zero = ground arith
  lone_at p n (suc i) = ground (arith, blank_at n i)

  -- A table whose first slot alone is in use.
  lone-Inv :
      (p : Proc) (n : ℕ) → p.state ≡ runnable → p.parent ≡ none → Inv 0 (p ∷ replicate n blank)
  unfolding blank
  lone-Inv p n run root = record {
    parents = λ i j. ground (arith, lone_at p n i);
    own_chan = λ i. ground (arith, lone_at p n i);
    no_lost = λ i j. ground (arith, lone_at p n i);
    no_self = λ i. ground (arith, lone_at p n i);
    init_alive = rw run;
    init_root = root;
  }

  -- The first process as `userinit` leaves it.
  abbrev pub first_proc : ℕ → ℕ → Option ℕ → Proc
  first_proc pgdir page cwd = record blank {
    sz = 4096;
    pgdir = pgdir;
    kstack = page;
    state = runnable;
    pid = 1;
    tf = first_frame v;
    context = at_forkret;
    cwd = cwd;
    name = initcode v;
    tickets = 1;
  }

  -- The kernel as `userinit` leaves it, with the page of the first kernel stack.
  abbrev pub boot : ℕ → ℕ → ℕ → Option ℕ → v.State → Kernel v.State
  boot pgdir page rng cwd s = record {
    procs = first_proc pgdir page cwd ∷ replicate 63 blank;
    nextpid = 2;
    rng = rng;
    initproc = 0;
    env = s;
  }

  -- With a page for its kernel stack, `userinit` puts the first process into slot 0, as pid 1 with
  -- one ticket, and leaves the other slots free.
  pub userinit-eq :
      (pgdir page rng : ℕ) (cwd : Option ℕ) (env s : v.State)
      → v.kalloc env ≡ (some page, s)
      → userinit v (some pgdir) cwd (cold rng env) ≡ some (boot pgdir page rng cwd s)
  unfolding userinit blank
  userinit-eq pgdir page rng cwd env s e = rw e

  pub boot-Good :
      (pgdir page rng : ℕ) (cwd : Option ℕ) (s : v.State) → Good (boot pgdir page rng cwd s)
  unfolding blank
  boot-Good pgdir page rng cwd s = lone-Inv (first_proc pgdir page cwd) 63 refl refl

  booted-Good :
      (pgdir page rng : ℕ) (cwd : Option ℕ) (env s : v.State) {k : Kernel v.State}
      → v.kalloc env ≡ (some page, s)
      → userinit v (some pgdir) cwd (cold rng env) ≡ some k
      → Good k
  booted-Good pgdir page rng cwd env s {k} e u =
      let same : boot pgdir page rng cwd s ≡ k = cc (userinit-eq pgdir page rng cwd env s e) in
      subst (λ (q : Kernel v.State). Good q) same (boot-Good pgdir page rng cwd s)

  -- In a run that starts with what `userinit` leaves, no process sleeps in `wait` while a child
  -- process of its is a zombie, and none sleeps in `join` while a thread of its is one.
  pub no_lost_wakeup :
      (pgdir page rng : ℕ) (cwd : Option ℕ) (env s : v.State) {k₀ k : Kernel v.State} (i j : ℕ)
      → v.kalloc env ≡ (some page, s)
      → userinit v (some pgdir) cwd (cold rng env) ≡ some k₀
      → Reach v k₀ k
      → (proc_at k.procs i).state ≡ sleeping
      → awaits (proc_at k.procs i).context i (proc_at k.procs j)
          && is_zombie (proc_at k.procs j).state
        ≡ false
  no_lost_wakeup pgdir page rng cwd env s i j e u r asleep =
      (Reach-Good (booted-Good pgdir page rng cwd env s e u) r).no_lost i j asleep

  -- In such a run the parent of a process is another one, which has not exited, and the first process
  -- stays alive, at the root.
  pub family_tree :
      (pgdir page rng : ℕ) (cwd : Option ℕ) (env s : v.State) {k₀ k : Kernel v.State} (i j : ℕ)
      → v.kalloc env ≡ (some page, s)
      → userinit v (some pgdir) cwd (cold rng env) ≡ some k₀
      → Reach v k₀ k
      → (proc_at k.procs i).parent ≡ some j
      → (is_alive (proc_at k.procs j).state ≡ true)
        × (i ≢ j)
        × (is_alive (proc_at k.procs k.initproc).state ≡ true)
        × ((proc_at k.procs k.initproc).parent ≡ none)
  family_tree pgdir page rng cwd env s i j e u r mine =
      let g = Reach-Good (booted-Good pgdir page rng cwd env s e u) r in
      (
        g.parents i j mine,
        λ same. g.no_self i (mine ∙ ap (λ (n : ℕ). some n) (sym same)),
        g.init_alive,
        g.init_root,
      )
