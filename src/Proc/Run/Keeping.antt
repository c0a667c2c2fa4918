-- ===== src/Proc/Run/Keeping.antt =====
-- `yield`, `sleep`, `scheduler` and `kill` of Xv6-Threads/src/proc.c keep the invariant of the
-- process table.
use os_wsl.Prelude.{
  ℕ, zero, suc, ◌<◌, ◌≡◌, refl, ◌⊎◌, true, false, ◌&&◌, Option, none, some, List, [], ◌∷◌, arith,
  length, set, ◌==◌, if◌then◌else◌, Bool-cases, inl, inr, ◌+◌, ◌%◌, not, int_le, u32, ap,
}
use os_wsl.Proc.{
  Proc, Context, sleeping, running, blank, addr, proc_at, is_unused, is_runnable, runnable,
  at_sleep,
}
use os_wsl.Proc.Create.{Kernel}
use os_wsl.Proc.Leave.{yield, sleep, kill, kill_in, killed_slot, resume}
use os_wsl.Proc.Scheduler.{scheduler, krand, total_from, pick_from, run_winner}
use os_wsl.Proc.Invariant.{is_alive, waits_for_child, Inv}
use os_wsl.Proc.Invariant.Change.{Keeps, set-Inv}
use os_wsl.Proc.Run.{Runs}

abbrev pub Good : {S : Type 0} → Kernel S → Type 0
Good k = Inv k.initproc k.procs

pub in_use-inside : (t : List Proc) (i : ℕ) → is_unused (proc_at t i).state ≡ false → i < length t
unfolding blank
in_use-inside [] i h = cc
in_use-inside (p ∷ t) zero h = omega arith
in_use-inside (p ∷ t) (suc i) h = omega (arith, in_use-inside t i h)

pub running-inside : (t : List Proc) (i : ℕ) → (proc_at t i).state ≡ running → i < length t
running-inside t i h = in_use-inside t i (rw h)

-- The slot stays in use, with its parent, and does not wait for a child.
pub retained :
    (t : List Proc) (i : ℕ) (p : Proc)
    → is_unused (proc_at t i).state ≡ false
    → is_alive p.state ≡ true
    → p.parent ≡ (proc_at t i).parent
    → (p.state ≡ sleeping → waits_for_child p.context ≡ false)
    → Keeps t i p
retained t i p used alive same calm = record {
  inside = in_use-inside t i used;
  lives = λ e. alive;
  kin = inl same;
  dead = ground arith;
  no_wait = calm;
}

pub yield-Good : {S : Type 0} (cur : ℕ) (k : Kernel S) → Runs cur k → Good k → Good (yield cur k)
unfolding yield
yield-Good cur k r g =
    set-Inv k.procs cur _ (retained k.procs cur _ (rw r.on_cpu) refl refl (λ e. cc)) g

pub sleep-Good :
    {S : Type 0} (cur a : ℕ) (k : Kernel S) → Runs cur k → Good k → Good (sleep (addr a) cur k)
unfolding sleep
sleep-Good cur a k r g =
    set-Inv k.procs cur _ (retained k.procs cur _ (rw r.on_cpu) refl refl (λ e. refl)) g

pub resume-Good :
    {S : Type 0} (c : Context) (cur : ℕ) (k : Kernel S)
    → (proc_at k.procs cur).state ≡ running
    → Good k
    → Good (resume c cur k)
unfolding resume
resume-Good at_sleep cur k r g =
    set-Inv k.procs cur _ (retained k.procs cur _ (rw r) (rw r) refl (λ e. refl)) g
resume-Good _ cur k r g =
    set-Inv k.procs cur _ (retained k.procs cur _ (rw r) (rw r) refl (λ e. refl)) g

-- The lottery's winner is RUNNABLE, whatever the sums are.
pick_from-some :
    (w c : ℕ) (t : List Proc) (i j : ℕ)
    → pick_from w c t i ≡ some j
    → (n : ℕ) × (j ≡ i + n) × ((proc_at t n).state ≡ runnable)
unfolding pick_from
pick_from-some w c [] i j h = cc
pick_from-some w c (p ∷ t) i j h =
    let sum = (if is_runnable p.state then u32 (c + p.tickets) else c) in
    elim (Bool-cases (is_runnable p.state && not (int_le sum w))) [
      | inl e ↦ (0, ground arith, ground arith)
      | inr e ↦
          let (n, at, run) = pick_from-some w sum t (i + 1) j (rw e at h) in
          (suc n, omega arith, run)
    ]

run_winner-Good :
    {S : Type 0} (o : Option ℕ) (k : Kernel S)
    → ((j : ℕ) → o ≡ some j → (proc_at k.procs j).state ≡ runnable)
    → Good k
    → Good (run_winner o k).1
unfolding run_winner
run_winner-Good none k h g = g
run_winner-Good (some j) k h g =
    set-Inv k.procs j _ (retained k.procs j _ (rw (h j refl)) refl refl (λ e. cc)) g

runnable_at :
    (t : List Proc) (w j : ℕ) → pick_from w 0 t 0 ≡ some j → (proc_at t j).state ≡ runnable
runnable_at t w j h =
    let (n, at, run) = pick_from-some w 0 t 0 j h in let same : j ≡ n = omega arith in rw same run

pub scheduler-Good : {S : Type 0} (k : Kernel S) → Good k → Good (scheduler k).1
unfolding scheduler
scheduler-Good k g = elim (Bool-cases (total_from 0 k.procs == 0)) [
  | inl e ↦ rw e g
  | inr e ↦ rw e (
      run_winner-Good (pick_from (krand k.rng % total_from 0 k.procs) 0 k.procs 0)
        (record k { rng = krand k.rng })
        (λ j. runnable_at k.procs (krand k.rng % total_from 0 k.procs) j) g)
]

kill_in-set :
    (pid : ℕ) (t : List Proc)
    → ((kill_in pid t).1 ≡ t)
      ⊎ ((n : ℕ) × (n < length t) × ((kill_in pid t).1 ≡ set t n (killed_slot (proc_at t n))))
unfolding kill_in
kill_in-set pid [] = inl refl
kill_in-set pid (p ∷ t) = elim (Bool-cases (p.pid == pid)) [
  | inl e ↦ inr (0, omega arith, rw e)
  | inr e ↦ elim (kill_in-set pid t) [
    | inl same ↦ inl (rw e (ap (λ (u : List Proc). p ∷ u) same))
    | inr (n, lt, changed) ↦ inr (suc n, omega arith, rw e (ap (λ (u : List Proc). p ∷ u) changed))
  ]
]

pub kill-Good : {S : Type 0} (pid : ℕ) (k : Kernel S) → Good k → Good (kill pid k).1
unfolding kill
kill-Good pid k g = elim (kill_in-set pid k.procs) [
  | inl same ↦ rw same g
  | inr (n, lt, changed) ↦ rw changed (
      set-Inv k.procs n _
        (record {
          inside = lt;
          lives = ground arith;
          kin = inl refl;
          dead = ground arith;
          no_wait = ground arith;
        })
        g)
]
