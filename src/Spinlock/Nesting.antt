-- ===== src/Spinlock/Nesting.antt =====
-- pushcli and popcli of Xv6-Threads/src/spinlock.c are matched.
use os_wsl.Prelude.{
  ℕ, zero, suc, ◌-◌, ◌<◌, ◌≡◌, ◌⊎◌, inl, inr, refl, sym, ◌∙◌, true, false, ◌&&◌, Option, none, some,
  arith, ◌==◌, if◌then◌else◌, Bool-cases,
}
use os_wsl.Spinlock.{Cpu, pushcli, popcli}

-- While a pushcli is not undone yet, interrupts are off.
abbrev pub Matched : Cpu → Type 0
Matched c = (c.ncli ≡ 0) ⊎ (c.interrupts ≡ false)

abbrev pub pushes : ℕ → Cpu → Cpu
pushes zero c = c
pushes (suc n) c = pushes n (pushcli c)

abbrev pub pops : ℕ → Cpu → Option Cpu
pops zero c = some c
pops (suc n) c = elim (pops n c) [ none ↦ none | some d ↦ popcli d ]

-- The same count and the same interrupt flag, and what the flag was while interrupts stay off.
abbrev pub Back : Cpu → Option Cpu → Type 0
Back c none = ⊥
Back c (some d) =
    (d.ncli ≡ c.ncli) × (d.interrupts ≡ c.interrupts) × (0 < c.ncli → d.intena ≡ c.intena)

-- The popcli for a pushcli, when the calls between them are undone.
popcli-Back : (c d : Cpu) → Matched c → Back (pushcli c) (some d) → Back c (popcli d)
unfolding popcli pushcli
popcli-Back c d m (n, off, saved) =
    let some_left : (d.ncli == 0) ≡ false = ground arith in
    rw off (rw some_left (omega arith, flag (Bool-cases (c.ncli == 0)), kept))
  where
    intena : d.intena ≡ (if c.ncli == 0 then c.interrupts else c.intena)
    intena = saved (omega arith)

    was_off : Matched c → (c.ncli == 0) ≡ false → c.interrupts ≡ false
    was_off (inl z) e = absurd (ground arith)
    was_off (inr o) e = o

    flag :
        ((c.ncli == 0) ≡ true) ⊎ ((c.ncli == 0) ≡ false)
        → (d.ncli - 1 == 0 && d.intena) ≡ c.interrupts
    flag (inl e) =
        let none_left : (d.ncli - 1 == 0) ≡ true = ground arith in rw none_left (intena ∙ rw e refl)
    flag (inr e) =
        let more : (d.ncli - 1 == 0) ≡ false = ground arith in rw more (sym (was_off m e))

    kept : 0 < c.ncli → d.intena ≡ c.intena
    kept pos =
        let some_before : (c.ncli == 0) ≡ false = ground arith in intena ∙ rw some_before refl

pushcli-Matched : (c : Cpu) → Matched (pushcli c)
unfolding pushcli
pushcli-Matched c = inr refl

-- However deep calls of pushcli are nested, as many of popcli undo them without a panic: the count and
-- the interrupt flag are as before, so that interrupts that were off stay off.
pub nested-Back : (n : ℕ) (c : Cpu) → Matched c → Back c (pops n (pushes n c))
nested-Back zero c m = (refl, refl, λ pos. refl)
nested-Back (suc n) c m =
    last (pops n (pushes n (pushcli c))) (nested-Back n (pushcli c) (pushcli-Matched c))
  where
    last :
        (o : Option Cpu) → Back (pushcli c) o → Back c (elim o [ none ↦ none | some d ↦ popcli d ])
    last none b = b
    last (some d) b = popcli-Back c d m b
