-- ===== src/Proc/Scheduler.antt =====
-- The lottery scheduler: `krand`, `scheduler` and `fill_pstat` of Xv6-Lottery/src/proc.c, which
-- Xv6-Threads/src/proc.c repeats. `total`, `winner` and `cumulative` are C's `int`.
pub mod Lottery
use os_wsl.Prelude.{
  ℕ, ◌+◌, ◌*◌, ◌%◌, not, ◌&&◌, Option, none, some, List, [], ◌∷◌, map, u32, int_le, ◌==◌,
  if◌then◌else◌,
}
use os_wsl.Proc.{Proc, running, is_runnable, is_unused, proc_at}
use os_wsl.Proc.Create.{Kernel, put}

-- The next state of the generator, which is also what `krand` returns.
unfoldable pub krand : ℕ → ℕ
krand rng = u32 (rng * 1664525 + 1013904223)

-- The tickets that a slot brings to the lottery.
abbrev pub stake : Proc → ℕ
stake p = if is_runnable p.state then p.tickets else 0

-- The first loop of `scheduler`, with `total` so far.
unfoldable pub total_from : ℕ → List Proc → ℕ
total_from total [] = total
total_from total (p ∷ t) =
    total_from (if is_runnable p.state then u32 (total + p.tickets) else total) t

-- The second loop, over the slots from `i` on.
unfoldable pub pick_from : ℕ → ℕ → List Proc → ℕ → Option ℕ
pick_from winner cumulative [] i = none
pick_from winner cumulative (p ∷ t) i =
    let sum = (if is_runnable p.state then u32 (cumulative + p.tickets) else cumulative) in
    let rest = pick_from winner sum t (i + 1) in
    if is_runnable p.state && not (int_le sum winner) then some i else rest

-- The slot that is chosen, as it is switched to.
abbrev pub dispatched : Proc → Proc
dispatched p = record p { ticks = u32 (p.ticks + 1); state = running }

unfoldable pub run_winner : {S : Type 0} → Option ℕ → Kernel S → Option ℕ × Kernel S
run_winner none k = (none, k)
run_winner (some i) k = (some i, put i (dispatched (proc_at k.procs i)) k)

-- One round of the scheduler's loop, up to `swtch`: the slot that it runs, if any.
unfoldable pub scheduler : {S : Type 0} → Kernel S → Option ℕ × Kernel S
unfolding krand total_from pick_from run_winner
scheduler k =
    let total = total_from 0 k.procs in
    let drawn = krand k.rng in
    if total == 0
    then (none, k)
    else run_winner (pick_from (drawn % total) 0 k.procs 0) (record k { rng = drawn })

-- `struct pstat`
pub record Pstat : Type 0 where
  pub inuse : List ℕ
  pub tickets : List ℕ
  pub pid : List ℕ
  pub ticks : List ℕ

abbrev pub inuse_of : Proc → ℕ
inuse_of p = if is_unused p.state then 0 else 1

unfoldable pub fill_pstat : List Proc → Pstat
fill_pstat t = record {
  inuse = map inuse_of t;
  tickets = map (λ (p : Proc). p.tickets) t;
  pid = map (λ (p : Proc). p.pid) t;
  ticks = map (λ (p : Proc). p.ticks) t;
}
