-- ===== src/Syscall/Settings.antt =====
-- What the handlers of Xv6-Threads/src/sysproc.c guarantee.
use os_wsl.Prelude.{
  Option, some, ℕ, zero, suc, ◌+◌, ◌-◌, ◌%◌, ◌≤◌, ◌<◌, ◌≡◌, ◌≢◌, ◌⊎◌, sym, refl, ap, Bool, true,
  false, ◌&&◌, none, List, [], ◌∷◌, arith, length, get_elem?, u32, int_min, int_lt, ltb, leb, ◌==◌,
  if◌then◌else◌, minus_one, Bool-cases, inl, inr,
}
use os_wsl.Proc.{proc_at}
use os_wsl.Proc.Slots.{proc_at-set, proc_at-set_ne}
use os_wsl.Proc.Create.{Kernel, put}
use os_wsl.String.{Mem}
use os_wsl.Syscall.{Sys, syscalls, argint, handler_of}
use os_wsl.Syscall.Handlers.{
  slept, interrupted, sleeps_on, sleep_pass, set_tickets, sys_settickets, Resize, resized, growproc,
}

-- Which numbers name a system call: those from 1 to 26, by their place in the table. No other number,
-- and no negative one, does.
pub handler_of_lem :
    (n : ℕ)
    → n < 4294967296
    → handler_of n ≡ (if ltb 0 n && leb n 26 then get_elem? syscalls (n - 1) else none)
unfolding handler_of
handler_of_lem zero h = refl
handler_of_lem (suc n) h = elim (Bool-cases (leb (suc n) 26)) [
  | inl e ↦
      let pos : int_lt 0 (suc n) ≡ true = ground arith in
      let pos' : ltb 0 (suc n) ≡ true = ground arith in
      rw (pos, pos', e) (ap (get_elem? syscalls) {x = n} {y = suc n - 1} (omega arith))
  | inr e ↦
      let past : get_elem? syscalls n ≡ none = none_past syscalls n (ground arith) in
      rw e (ground (arith, past))
]
  where
    none_past : (xs : List Sys) (i : ℕ) → length xs ≤ i → get_elem? xs i ≡ none
    none_past [] i h = refl
    none_past (x ∷ xs) zero h = absurd (omega arith)
    none_past (x ∷ xs) (suc i) h = none_past xs i (omega arith)

-- `sys_sleep` sleeps on as long as fewer than `n` ticks have gone by, even where the counter has
-- wrapped in the meantime; a process that has been killed gives up instead.
pub sleep_pass_lem :
    (ticks0 elapsed n : ℕ) (killed : Bool)
    → ticks0 < 4294967296
    → elapsed < 4294967296
    → sleep_pass (u32 (ticks0 + elapsed)) ticks0 n killed
      ≡ (if ltb elapsed n then (if killed then interrupted else sleeps_on) else slept)
unfolding sleep_pass
sleep_pass_lem ticks0 elapsed n killed h e =
    let same : u32 (u32 (ticks0 + elapsed) + 4294967296 - ticks0) ≡ elapsed = omega arith in rw same

set_tickets_lem :
    {S : Type 0} (cur j : ℕ) (o : Option ℕ) (k : Kernel S)
    → cur < length k.procs
    → (set_tickets cur o k ≡ (minus_one, k))
      ⊎ ((n : ℕ) × (0 < n % 4294967296)
          × (n % 4294967296 < int_min)
          × (set_tickets cur o k ≡ (0, put cur (record (proc_at k.procs cur) { tickets = n }) k))
          × (proc_at (set_tickets cur o k).1.procs j ≡ (
              if j == cur
              then record (proc_at k.procs cur) { tickets = n }
              else proc_at k.procs j)))
unfolding set_tickets
set_tickets_lem cur j none k inside = inl refl
set_tickets_lem cur j (some n) k inside = elim (Bool-cases (int_lt n 1)) [
  | inl low ↦ rw low (inl refl)
  | inr ok ↦ rw ok (
      inr (
        n,
        ground arith,
        ground arith,
        refl,
        ground (
          arith,
          proc_at-set k.procs cur j (record (proc_at k.procs cur) { tickets = n }) inside,
        ),
      ))
]

-- `sys_settickets` either returns -1 and changes nothing, or it returns 0 and gives the caller a
-- positive number of tickets that fits an `int`, and leaves the other slots as they are.
pub settickets_lem :
    {S : Type 0} (cur j : ℕ) (m : Mem) (k : Kernel S)
    → cur < length k.procs
    → (sys_settickets cur m k ≡ (minus_one, k))
      ⊎ ((n : ℕ) × (0 < n % 4294967296)
          × (n % 4294967296 < int_min)
          × (sys_settickets cur m k ≡ (0, put cur (record (proc_at k.procs cur) { tickets = n }) k))
          × (proc_at (sys_settickets cur m k).1.procs j ≡ (
              if j == cur
              then record (proc_at k.procs cur) { tickets = n }
              else proc_at k.procs j)))
unfolding sys_settickets
settickets_lem cur j m k inside = set_tickets_lem cur j (argint (proc_at k.procs cur) m 0) k inside

resized_lone :
    {S : Type 0} (cur j sz : ℕ) (s : S) (k : Kernel S)
    → j ≢ cur
    → proc_at (resized cur (sz, s) k).1.procs j ≡ proc_at k.procs j
unfolding resized
resized_lone cur j sz s k other = elim (Bool-cases (sz == 0)) [
  | inl e ↦ rw e
  | inr e ↦ rw e (proc_at-set_ne k.procs cur j _ (λ same. other (sym same)))
]

-- `growproc` leaves the other slots alone: a thread that shares the page table keeps the old size.
pub growproc_lone :
    {S : Type 0} (alloc dealloc : Resize S) (n cur j : ℕ) (k : Kernel S)
    → j ≢ cur
    → proc_at (growproc alloc dealloc n cur k).1.procs j ≡ proc_at k.procs j
unfolding growproc
growproc_lone alloc dealloc n cur j k other =
    let p = proc_at k.procs cur in
    let up = alloc p.pgdir p.sz (u32 (p.sz + n)) k.env in
    let down = dealloc p.pgdir p.sz (u32 (p.sz + n)) k.env in
    elim (Bool-cases (n == 0)) [
      | inl e ↦ rw e
      | inr e ↦ elim (Bool-cases (int_lt 0 n)) [
        | inl z ↦ rw (e, z) (resized_lone cur j up.0 up.1 k other)
        | inr z ↦ rw (e, z) (resized_lone cur j down.0 down.1 k other)
      ]
    ]

-- A process that shrinks to no bytes is told that it failed, and keeps its old size, although
-- `deallocuvm` has done its work and answered with the new size, 0.
pub growproc_to_zero :
    {S : Type 0} (alloc dealloc : Resize S) (n cur : ℕ) (k : Kernel S) (s : S)
    → int_lt n 0 ≡ true
    → dealloc
        (proc_at k.procs cur).pgdir
        (proc_at k.procs cur).sz
        (u32 ((proc_at k.procs cur).sz + n))
        k.env
      ≡ (0, s)
    → growproc alloc dealloc n cur k ≡ (minus_one, record k { env = s })
unfolding growproc
growproc_to_zero alloc dealloc n cur k s neg did =
    let some_n : (n == 0) ≡ false = ground arith in
    let not_up : int_lt 0 n ≡ false = ground arith in rw (some_n, not_up, did)
