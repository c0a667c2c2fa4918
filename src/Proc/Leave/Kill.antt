-- ===== src/Proc/Leave/Kill.antt =====
-- `kill` of Xv6-Threads/src/proc.c: which slot it marks, and what it does to a free slot.
use os_wsl.Prelude.{
  ℕ, zero, suc, ◌<◌, ◌≡◌, ◌≢◌, refl, ap, ◌⊎◌, inl, inr, ltb, ◌&&◌, ◌==◌, Bool-cases, true, false,
  some, List, [], ◌∷◌, arith, length, length-set, set, minus_one, ◌==◌, ==_iff,
}
use os_wsl.Proc.{Proc, runnable, proc_at, find_unused, is_unused}
use os_wsl.Proc.Slots.{proc_at-set_self, proc_at-set_ne, find_unused-some, find_unused-ne}
use os_wsl.Proc.Services.{Services}
use os_wsl.Proc.Create.{Kernel, claim, fork}
use os_wsl.Proc.Create.Made.{fork-eq}
use os_wsl.Proc.Leave.{kill_in, kill, killed_slot}

-- The first slot with this pid, free or not.
pub record IsFirstPid (pid : ℕ) (t : List Proc) (n : ℕ) : Type 0 where
  pub inside : n < length t
  pub same_pid : (proc_at t n).pid ≡ pid
  pub first : (m : ℕ) → m < n → (proc_at t m).pid ≢ pid

first-tail :
    {pid : ℕ} (p : Proc) (t : List Proc) (n : ℕ)
    → IsFirstPid pid (p ∷ t) (suc n)
    → IsFirstPid pid t n
first-tail p t n f = record {
  inside = omega (arith, f.inside);
  same_pid = f.same_pid;
  first = λ m l. f.first (suc m) (omega arith);
}

kill_in-first :
    (pid : ℕ) (t : List Proc) (n : ℕ)
    → IsFirstPid pid t n
    → kill_in pid t ≡ (0, set t n (killed_slot (proc_at t n)))
unfolding kill_in
kill_in-first pid [] n f = absurd (omega (arith, f.inside))
kill_in-first pid (p ∷ t) zero f = rw ((==_iff p.pid pid).1 f.same_pid)
kill_in-first pid (p ∷ t) (suc n) f =
    rw ((differs p.pid pid (f.first 0 (omega arith))), kill_in-first pid t n (first-tail p t n f))
  where
    differs : (a b : ℕ) → a ≢ b → (a == b) ≡ false
    differs a b h = ground arith

kill_in-none :
    (pid : ℕ) (t : List Proc)
    → ((n : ℕ) → n < length t → (proc_at t n).pid ≢ pid)
    → kill_in pid t ≡ (minus_one, t)
unfolding kill_in
kill_in-none pid [] h = refl
kill_in-none pid (p ∷ t) h =
    ground (arith, h 0, kill_in-none pid t (λ n l. h (suc n) (omega arith)))

-- No slot has this pid.
abbrev pub NoPid : ℕ → List Proc → Type 0
NoPid pid t = (n : ℕ) → ltb n (length t) && ((proc_at t n).pid == pid) ≡ false

pid-cases : (pid : ℕ) (t : List Proc) → ((n : ℕ) × IsFirstPid pid t n) ⊎ NoPid pid t
pid-cases pid [] = inr (λ n. ground arith)
pid-cases pid (p ∷ t) = elim (Bool-cases (p.pid == pid)) [
  | inl e ↦ inl (
    0,
    record { inside = omega arith; same_pid = ground arith; first = λ m l. absurd (omega arith) },
  )
  | inr e ↦ elim (pid-cases pid t) [
    | inl (n, f) ↦ inl (
      suc n,
      record {
        inside = omega (arith, f.inside);
        same_pid = f.same_pid;
        first = elim [ zero ↦ λ l. ground arith | suc m ↦ λ l. f.first m (omega arith) ];
      },
    )
    | inr h ↦ inr (elim [ zero ↦ ground arith | suc n ↦ ground (arith, h n) ])
  ]
]

kill-first :
    {S : Type 0} (pid n : ℕ) (k : Kernel S)
    → IsFirstPid pid k.procs n
    → kill pid k ≡ (0, record k { procs = set k.procs n (killed_slot (proc_at k.procs n)) })
unfolding kill
kill-first pid n k f = rw (kill_in-first pid k.procs n f)

-- `kill` returns 0 and marks the first slot that has the pid, free or not, waking it if it sleeps; or
-- no slot has the pid, and it returns -1 and changes nothing.
pub kill_cases :
    {S : Type 0} (pid : ℕ) (k : Kernel S)
    → ((n : ℕ) × IsFirstPid pid k.procs n
        × (kill pid k ≡ (0, record k { procs = set k.procs n (killed_slot (proc_at k.procs n)) })))
      ⊎ (NoPid pid k.procs × (kill pid k ≡ (minus_one, k)))
unfolding kill
kill_cases pid k = elim (pid-cases pid k.procs) [
  | inl (n, f) ↦ inl (n, f, rw (kill_in-first pid k.procs n f))
  | inr h ↦ inr (h, rw (kill_in-none pid k.procs (λ n l. ground (arith, h n))))
]

find_unused-set :
    (t : List Proc) (i : ℕ) (p : Proc)
    → find_unused t ≡ some i
    → is_unused p.state ≡ true
    → find_unused (set t i p) ≡ some i
unfolding find_unused
find_unused-set [] i p h u = cc
find_unused-set (q ∷ t) zero p h u = rw u
find_unused-set (q ∷ t) (suc i) p h u = ground (arith, find_unused-set t i p)

still_free : (p : Proc) → is_unused p.state ≡ true → is_unused (killed_slot p).state ≡ true
still_free p h = ground arith

not_eq : {a b : ℕ} → (a == b) ≡ false → a ≢ b
not_eq h = ground arith

-- `kill` does not look at the state of the slot: with the pid of a free slot, which is 0 where the
-- slot was never used or has been reaped, it returns 0, and the process that the next `fork` puts
-- there is killed before it has run.
pub kill-fork :
    (v : Services) (cur i pid page pgdir : ℕ) (k : Kernel v.State) (s s' : v.State)
    → find_unused k.procs ≡ some i
    → is_unused (proc_at k.procs cur).state ≡ false
    → IsFirstPid pid k.procs i
    → v.kalloc k.env ≡ (some page, s)
    → v.copyuvm (proc_at k.procs cur).pgdir (proc_at k.procs cur).sz s ≡ (some pgdir, s')
    → ((kill pid k).0 ≡ 0)
      × ((fork v cur (kill pid k).1).0 ≡ k.nextpid)
      × ((proc_at (fork v cur (kill pid k).1).1.procs i).killed ≡ true)
      × ((proc_at (fork v cur (kill pid k).1).1.procs i).state ≡ runnable)
unfolding claim
kill-fork v cur i pid page pgdir k s s' free used f got made =
    let (lt, was) = find_unused-some k.procs i free in
    let t = set k.procs i (killed_slot (proc_at k.procs i)) in
    let k' : Kernel v.State = record k { procs = t } in
    let same : proc_at t cur ≡ proc_at k.procs cur =
      proc_at-set_ne k.procs i cur _ (λ e. not_eq (find_unused-ne k.procs i cur free used) e) in
    let free' : find_unused t ≡ some i =
      find_unused-set k.procs i _ free (still_free (proc_at k.procs i) was) in
    let other : (i == cur) ≡ false = find_unused-ne k.procs i cur free used in
    let lt' : i < length t =
      omega (arith, length-set k.procs i (killed_slot (proc_at k.procs i))) in
    let made' : v.copyuvm (proc_at t cur).pgdir (proc_at t cur).sz s ≡ (some pgdir, s') =
      rw same made in
    rw (kill-first pid i k f) (
      rw (fork-eq v cur i k' free' other page pgdir s s' got made') (
        rw (proc_at-set_self, lt')
          (refl, refl, ap (λ (p : Proc). p.killed) (proc_at-set_self k.procs i _ lt), refl)))
