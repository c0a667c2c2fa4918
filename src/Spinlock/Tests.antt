-- ===== src/Spinlock/Tests.antt =====
-- Two CPUs at the lock of Xv6-Threads/src/spinlock.c.
use os_wsl.Prelude.{ℕ, ◌≡◌, refl, inl, true, false, none, some, List, [], ◌∷◌, ◌==◌, if◌then◌else◌}
use os_wsl.Spinlock.{Cpu, outside, spinning, inside, Spin, initlock, step, run}
use os_wsl.Spinlock.Nesting.{pushes, pops, Back, nested-Back}
use os_wsl.Spinlock.Exclusion.{Excludes, run-Excludes}
use os_wsl.Spinlock.Progress.{Gets, run-Gets}

abbrev cpu : Cpu
cpu = record { ncli = 0; intena = false; interrupts = true }

nested-Back_example : Back cpu (pops 3 (pushes 3 cpu))
nested-Back_example = nested-Back 3 cpu (inl refl)

-- CPU 0 has the lock and CPU 1 waits for it.
abbrev schedule : List ℕ
schedule = 0 ∷ 1 ∷ 0 ∷ 1 ∷ 0 ∷ []

abbrev contended : Spin
contended = record {
  locked = 1;
  cpu = some 0;
  phases = λ i. if i == 0 then inside else (if i == 1 then spinning else outside);
}

abbrev reached : Spin
reached = elim (run schedule initlock) [ none ↦ initlock | some s ↦ s ]

who_is_where : (reached.phases 0 ≡ inside) × (reached.phases 1 ≡ spinning) × (reached.locked ≡ 1)
unfolding run step
who_is_where = (refl, refl, refl)

run-Gets_example : Gets 4 1 reached
unfolding run step
run-Gets_example = run-Gets schedule reached 1 refl refl

run-Excludes_example : Excludes (run schedule initlock)
run-Excludes_example = run-Excludes schedule
