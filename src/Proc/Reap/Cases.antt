-- ===== src/Proc/Reap/Cases.antt =====
-- The outcomes of `wait` and `join` of Xv6-Threads/src/proc.c, and what they do to threads.
use os_wsl.Prelude.{
  ℕ, ap, ◌≡◌, ◌≢◌, refl, ◌⊎◌, inl, inr, Bool, true, false, ◌&&◌, List, arith, set, minus_one,
  Bool-cases,
}
use os_wsl.Proc.{Proc, Context, blank, proc_at, is_zombie, at_wait, at_join, proc_chan}
use os_wsl.Proc.Slots.{proc_at-set, proc_at-set_ne}
use os_wsl.Proc.Services.{Services}
use os_wsl.Proc.Create.{Kernel}
use os_wsl.Proc.Reap.{
  Scan, Outcome, zombie_at, kids, no_kids, returns, sleeps, scan_from, is_child, is_thread_child,
  freed, go_to_sleep, no_zombie, reap, reap_thread, wait_on, wait, join_on, join,
}
use os_wsl.Proc.Reap.Found.{
  IsFirstZombie, scan_from-first, scan_from-zombie_at, scan_from-kids, scan_from-no_kids,
}

-- No child in `mine` is a zombie.
abbrev pub NoZombie : (Proc → Bool) → List Proc → Type 0
NoZombie mine t = (n : ℕ) → mine (proc_at t n) && is_zombie (proc_at t n).state ≡ false

module _ (v : Services) (cur : ℕ) (k : Kernel v.State) where
  -- The pass over the table of `wait`, or `join`, for the children `mine`.
  pub record Found (mine : Proc → Bool) (n : ℕ) (out reaped : Outcome × Kernel v.State)
      : Type 0 where
    pub first : IsFirstZombie mine k.procs n
    pub result : out ≡ reaped

  pub record GivesUp (mine : Proc → Bool) (out : Outcome × Kernel v.State) : Type 0 where
    pub alive : NoZombie mine k.procs
    pub reason :
        ((n : ℕ) → mine (proc_at k.procs n) ≡ false) ⊎ ((proc_at k.procs cur).killed ≡ true)
    pub result : out ≡ (returns minus_one, k)

  pub record Sleeps (c : Context) (mine : Proc → Bool) (out : Outcome × Kernel v.State)
      : Type 0 where
    pub alive : NoZombie mine k.procs
    pub spared : (proc_at k.procs cur).killed ≡ false
    pub result : out ≡ (sleeps, go_to_sleep c (proc_chan cur) cur k)

  blocked :
      (c : Context) (mine : Proc → Bool)
      → NoZombie mine k.procs
      → GivesUp mine (no_zombie true c cur k) ⊎ Sleeps c mine (no_zombie true c cur k)
  unfolding no_zombie
  blocked c mine alive = elim (Bool-cases (proc_at k.procs cur).killed) [
    | inl e ↦ inl (record { alive = alive; reason = inr e; result = ground arith })
    | inr e ↦ inr (record { alive = alive; spared = e; result = ground arith })
  ]

  childless :
      (c : Context) (mine : Proc → Bool)
      → ((n : ℕ) → mine (proc_at k.procs n) ≡ false)
      → GivesUp mine (no_zombie false c cur k)
  unfolding no_zombie
  childless c mine none_mine = record {
    alive = λ n. ground (arith, none_mine n);
    reason = inl none_mine;
    result = refl;
  }

  wait_on-cases :
      (s : Scan)
      → scan_from (is_child cur) k.procs false 0 ≡ s
      → ((n : ℕ) × Found (is_child cur) n (wait_on v s cur k) (reap v n k))
        ⊎ GivesUp (is_child cur) (wait_on v s cur k)
        ⊎ Sleeps at_wait (is_child cur) (wait_on v s cur k)
  unfolding wait_on blank
  wait_on-cases (zombie_at i) e =
      let (n, at, f) = scan_from-zombie_at (is_child cur) k.procs false 0 i e in
      let same : i ≡ n = omega arith in
      inl (n, record { first = f; result = ap (λ (j : ℕ). reap v j k) same })
  wait_on-cases kids e =
      inr (
        blocked at_wait (is_child cur)
          (λ n. scan_from-kids (is_child cur) k.procs false 0 n refl e))
  wait_on-cases no_kids e = inr (
      inl (
        childless at_wait (is_child cur)
          (λ n. scan_from-no_kids (is_child cur) k.procs false 0 n refl e)))

  -- `wait` frees the first zombie among the child processes of the caller and returns its pid; or,
  -- with no zombie among them, it returns -1 and changes nothing if the caller has no child process
  -- or has been killed; or it puts the caller to sleep on itself.
  pub wait_cases :
      ((n : ℕ) × Found (is_child cur) n (wait v cur k) (reap v n k))
      ⊎ GivesUp (is_child cur) (wait v cur k)
      ⊎ Sleeps at_wait (is_child cur) (wait v cur k)
  unfolding wait
  wait_cases = wait_on-cases (scan_from (is_child cur) k.procs false 0) refl

  join_on-cases :
      (s : Scan) (stack : ℕ)
      → scan_from (is_thread_child cur) k.procs false 0 ≡ s
      → ((n : ℕ) × Found
            (is_thread_child cur)
            n
            (join_on v s stack cur k)
            (reap_thread v stack n cur k))
        ⊎ GivesUp (is_thread_child cur) (join_on v s stack cur k)
        ⊎ Sleeps at_join (is_thread_child cur) (join_on v s stack cur k)
  unfolding join_on blank
  join_on-cases (zombie_at i) stack e =
      let (n, at, f) = scan_from-zombie_at (is_thread_child cur) k.procs false 0 i e in
      let same : i ≡ n = omega arith in
      inl (n, record { first = f; result = ap (λ (j : ℕ). reap_thread v stack j cur k) same })
  join_on-cases kids stack e = inr (
      blocked at_join (is_thread_child cur)
        (λ n. scan_from-kids (is_thread_child cur) k.procs false 0 n refl e))
  join_on-cases no_kids stack e = inr (
      inl (
        childless at_join (is_thread_child cur)
          (λ n. scan_from-no_kids (is_thread_child cur) k.procs false 0 n refl e)))

  -- `join` frees the first zombie among the threads that the caller has made and returns its pid;
  -- or, with no zombie among them, it returns -1 and changes nothing if the caller has no thread or
  -- has been killed; or it puts the caller to sleep on itself.
  pub join_cases :
      (stack : ℕ)
      → ((n : ℕ) × Found (is_thread_child cur) n (join v stack cur k) (reap_thread v stack n cur k))
        ⊎ GivesUp (is_thread_child cur) (join v stack cur k)
        ⊎ Sleeps at_join (is_thread_child cur) (join v stack cur k)
  unfolding join
  join_cases stack = join_on-cases (scan_from (is_thread_child cur) k.procs false 0) stack refl

  -- A thread that has exited is never freed by `wait`, by whichever process: unless it is the
  -- caller's own, its slot is as before. So a thread whose parent only calls `wait`, as the first
  -- process does with the threads handed to it, keeps its slot for ever.
  pub wait_keeps_threads :
      (j : ℕ)
      → (proc_at k.procs j).isthread ≡ true
      → j ≢ cur
      → proc_at (wait v cur k).1.procs j ≡ proc_at k.procs j
  unfolding reap go_to_sleep
  wait_keeps_threads j thread other = elim wait_cases [
    | inl (n, f) ↦ rw f.result (
        ground
          (arith, proc_at-set k.procs n j (freed (proc_at k.procs n)) f.first.inside, f.first.own))
    | inr (inl g) ↦ rw g.result
    | inr (inr s) ↦ rw s.result (proc_at-set_ne k.procs cur j _ (omega arith))
  ]

  wait-first : (n : ℕ) → IsFirstZombie (is_child cur) k.procs n → wait v cur k ≡ reap v n k
  unfolding wait
  wait-first n f =
      rw (scan_from-first (is_child cur) k.procs false 0 n f)
        (ap (λ (j : ℕ). reap v j k) (omega arith))

  -- `wait` gives the dead child's page table back whatever threads of it remain: a thread that
  -- shares the page table, in another slot than those of the child and the caller, still names it.
  pub wait_frees_shared :
      (n j : ℕ)
      → IsFirstZombie (is_child cur) k.procs n
      → j ≢ n
      → (proc_at k.procs j).pgdir ≡ (proc_at k.procs n).pgdir
      → ((wait v cur k).1.env
          ≡ v.freevm (proc_at k.procs j).pgdir (v.kfree (proc_at k.procs n).kstack k.env))
        × ((proc_at (wait v cur k).1.procs j).pgdir ≡ (proc_at k.procs j).pgdir)
        × ((proc_at (wait v cur k).1.procs j).state ≡ (proc_at k.procs j).state)
  unfolding reap
  wait_frees_shared n j first other shared =
      rw (wait-first n first)
        (rw shared, ap (λ (p : Proc). p.pgdir) kept, ap (λ (p : Proc). p.state) kept)
    where
      kept : proc_at (set k.procs n (freed (proc_at k.procs n))) j ≡ proc_at k.procs j
      kept = proc_at-set_ne k.procs n j (freed (proc_at k.procs n)) (omega arith)
