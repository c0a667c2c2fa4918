-- ===== src/Spinlock.antt =====
-- Xv6-Threads/src/spinlock.c: the nesting of pushcli and popcli on one CPU, and a lock that any number
-- of CPUs acquire and release. A step of a CPU is one write of the lock, or the check of `holding`, so
-- that the CPUs interleave between any two; a panic is `none`. The CPU whose steps are followed disables
-- its interrupts in `acquire`, and what it does with the lock is not part of the state.
pub mod Nesting
pub mod Exclusion
pub mod Progress
mod Tests
use os_wsl.Prelude.{
  ℕ, zero, suc, ◌+◌, ◌-◌, Bool, true, false, not, ◌&&◌, Option, none, some, List, [], ◌∷◌, ◌==◌,
  if◌then◌else◌,
}

-- The fields of `struct cpu` that pushcli and popcli use, with the interrupt flag of its eflags.
pub record Cpu : Type 0 where
  pub ncli : ℕ
  pub intena : Bool
  pub interrupts : Bool

unfoldable pub pushcli : Cpu → Cpu
pushcli c = record c {
  interrupts = false;
  intena = if c.ncli == 0 then c.interrupts else c.intena;
  ncli = c.ncli + 1;
}

unfoldable pub popcli : Cpu → Option Cpu
popcli c =
    if c.interrupts
    then none
    else (if c.ncli == 0
        then none
        else some (record c { ncli = c.ncli - 1; interrupts = c.ncli - 1 == 0 && c.intena }))

-- Where a CPU stands: outside; in the loop of `acquire`; behind the xchg that has taken the lock; with
-- the lock; and in `release` behind `lk->cpu = 0`.
pub data Phase : Type 0 where
  outside : Phase
  spinning : Phase
  taken : Phase
  inside : Phase
  leaving : Phase

-- `struct spinlock`, with the phase of each CPU.
pub record Spin : Type 0 where
  pub locked : ℕ
  pub cpu : Option ℕ
  pub phases : ℕ → Phase

-- `initlock`, before any CPU has called `acquire`.
abbrev pub initlock : Spin
initlock = record { locked = 0; cpu = none; phases = λ i. outside }

abbrev pub is_cpu : ℕ → Option ℕ → Bool
is_cpu i none = false
is_cpu i (some j) = j == i

abbrev pub holding : ℕ → Spin → Bool
holding i s = not (s.locked == 0) && is_cpu i s.cpu

abbrev pub moves : ℕ → Phase → (ℕ → Phase) → ℕ → Phase
moves i p phases j = if j == i then p else phases j

-- `acquire` up to the loop.
unfoldable pub enter : ℕ → Spin → Option Spin
enter i s = if holding i s then none else some (record s { phases = moves i spinning s.phases })

-- The atomic `xchg(&lk->locked, 1)`.
unfoldable pub exchange : ℕ → Spin → Spin
exchange i s = record s {
  locked = 1;
  phases = if s.locked == 0 then moves i taken s.phases else s.phases;
}

-- `lk->cpu = mycpu()`
unfoldable pub set_cpu : ℕ → Spin → Spin
set_cpu i s = record s { cpu = some i; phases = moves i inside s.phases }

-- `release` up to `lk->cpu = 0`.
unfoldable pub let_go : ℕ → Spin → Option Spin
let_go i s =
    if holding i s then some (record s { cpu = none; phases = moves i leaving s.phases }) else none

-- `lk->locked = 0`
unfoldable pub unlock : ℕ → Spin → Spin
unlock i s = record s { locked = 0; phases = moves i outside s.phases }

-- What CPU `i` does next.
unfoldable pub next_step : ℕ → Phase → Spin → Option Spin
unfolding enter exchange set_cpu let_go unlock
next_step i outside s = enter i s
next_step i spinning s = some (exchange i s)
next_step i taken s = some (set_cpu i s)
next_step i inside s = let_go i s
next_step i leaving s = some (unlock i s)

unfoldable pub step : ℕ → Spin → Option Spin
unfolding next_step
step i s = next_step i (s.phases i) s

-- The CPUs of a schedule, each making its next step.
unfoldable pub run : List ℕ → Spin → Option Spin
run [] s = some s
run (i ∷ is) s = elim (step i s) [ none ↦ none | some s' ↦ run is s' ]
