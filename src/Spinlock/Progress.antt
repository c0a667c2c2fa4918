-- ===== src/Spinlock/Progress.antt =====
-- The lock of Xv6-Threads/src/spinlock.c can always be had.
use mathlib.Core.Path.{subst}
use os_wsl.Prelude.{
  ℕ, suc, ◌≤◌, ◌≡◌, ◌≢◌, inl, inr, refl, sym, ap, ◌∙◌, true, false, Option, none, some, List, [],
  ◌∷◌, arith, length, ◌==◌,
}
use os_wsl.Spinlock.{
  Phase, outside, spinning, taken, inside, leaving, Spin, initlock, holding, moves, exchange,
  set_cpu, let_go, unlock, next_step, step, run,
}
use os_wsl.Spinlock.Exclusion.{clash, critical, cpu_of, Owned, Inv, Kept, run-Kept, initlock-Inv}

-- A schedule of `n` steps at most after which CPU `i` has taken the lock.
abbrev pub Gets : ℕ → ℕ → Spin → Type 0
Gets n i s =
    (js : List ℕ) × (s' : Spin) × (length js ≤ n) × (run js s ≡ some s') × (s'.phases i ≡ taken)

abbrev go_on : List ℕ → Option Spin → Option Spin
go_on js none = none
go_on js (some s) = run js s

run-cons : (j : ℕ) (js : List ℕ) (s s1 : Spin) → step j s ≡ some s1 → run (j ∷ js) s ≡ run js s1
unfolding run
run-cons j js s s1 e = opened (step j s) ∙ ap (go_on js) e
  where
    opened : (o : Option Spin) → (elim o [ none ↦ none | some s' ↦ run js s' ]) ≡ go_on js o
    opened none = refl
    opened (some s') = refl

Gets-then : (n i j : ℕ) (s s1 : Spin) → step j s ≡ some s1 → Gets n i s1 → Gets (suc n) i s
Gets-then n i j s s1 e (js, s', small, ran, has) =
    (j ∷ js, s', omega arith, run-cons j js s s1 e ∙ ran, has)

step_as : (j : ℕ) (p : Phase) (s : Spin) → s.phases j ≡ p → step j s ≡ next_step j p s
unfolding step
step_as j p s e = ap (λ q. next_step j q s) e

Gets-unlocked : (i : ℕ) (s : Spin) → s.locked ≡ 0 → s.phases i ≡ spinning → Gets 1 i s
unfolding run next_step exchange
Gets-unlocked i s unlocked e = (
  i ∷ [],
  record s { locked = 1; phases = moves i taken s.phases },
  omega arith,
  run-cons i [] s (record s { locked = 1; phases = moves i taken s.phases })
      (step_as i spinning s e ∙ rw unlocked refl),
  moves_self,
)
  where
    moves_self : moves i taken s.phases i ≡ taken
    moves_self = let same : (i == i) ≡ true = ground arith in rw same refl

still : (i o : ℕ) (p : Phase) (s : Spin) → i ≢ o → moves o p s.phases i ≡ s.phases i
still i o p s ne = let apart : (i == o) ≡ false = ground arith in rw apart refl

now : (o : ℕ) (p : Phase) (s : Spin) → moves o p s.phases o ≡ p
now o p s = let same : (o == o) ≡ true = ground arith in rw same refl

Gets-leaving :
    (i o : ℕ) (s : Spin) → i ≢ o → s.phases i ≡ spinning → s.phases o ≡ leaving → Gets 2 i s
unfolding next_step unlock
Gets-leaving i o s ne wait e =
    Gets-then 1 i o s (record s { locked = 0; phases = moves o outside s.phases })
      (step_as o leaving s e)
      (Gets-unlocked i (record s { locked = 0; phases = moves o outside s.phases }) refl
        (still i o outside s ne ∙ wait))

Gets-inside :
    (i o : ℕ) (s : Spin)
    → i ≢ o
    → s.phases i ≡ spinning
    → s.phases o ≡ inside
    → s.locked ≡ 1
    → s.cpu ≡ some o
    → Gets 3 i s
unfolding next_step let_go
Gets-inside i o s ne wait e locked cpu =
    let holds : holding o s ≡ true = rw cpu (rw locked (ground arith)) in
    Gets-then 2 i o s (record s { cpu = none; phases = moves o leaving s.phases })
      (step_as o inside s e ∙ rw holds refl)
      (Gets-leaving i o (record s { cpu = none; phases = moves o leaving s.phases }) ne
        (still i o leaving s ne ∙ wait) (now o leaving s))

Gets-taken :
    (i o : ℕ) (s : Spin)
    → i ≢ o
    → s.phases i ≡ spinning
    → s.phases o ≡ taken
    → s.locked ≡ 1
    → Gets 4 i s
unfolding next_step set_cpu
Gets-taken i o s ne wait e locked =
    Gets-then 3 i o s (record s { cpu = some o; phases = moves o inside s.phases })
      (step_as o taken s e)
      (Gets-inside i o (record s { cpu = some o; phases = moves o inside s.phases }) ne
        (still i o inside s ne ∙ wait) (now o inside s) locked refl)

longer : (m n i : ℕ) (s : Spin) → m ≤ n → Gets m i s → Gets n i s
longer m n i s le (js, s', small, ran, has) = (js, s', omega arith, ran, has)

-- The CPU that waits is not the owner.
waits_ne : (i o : ℕ) (s : Spin) → s.phases i ≡ spinning → Owned s o → i ≢ o
waits_ne i o s wait own e =
    clash (sym own.owner ∙ ap (λ k. critical (s.phases k)) (sym e) ∙ ap critical wait)

Gets-Owned :
    (i o : ℕ) (p : Phase) (s : Spin)
    → s.phases o ≡ p
    → s.phases i ≡ spinning
    → Owned s o
    → Gets 4 i s
Gets-Owned i o outside s e wait own = absurd (clash (sym own.owner ∙ ap critical e))
Gets-Owned i o spinning s e wait own = absurd (clash (sym own.owner ∙ ap critical e))
Gets-Owned i o taken s e wait own = Gets-taken i o s (waits_ne i o s wait own) wait e own.locked
Gets-Owned i o inside s e wait own =
    longer 3 4 i s (omega arith)
      (Gets-inside i o s (waits_ne i o s wait own) wait e own.locked (own.cpu ∙ ap (cpu_of o) e))
Gets-Owned i o leaving s e wait own =
    longer 2 4 i s (omega arith) (Gets-leaving i o s (waits_ne i o s wait own) wait e)

Inv-Gets : (i : ℕ) (s : Spin) → s.phases i ≡ spinning → Inv s → Gets 4 i s
Inv-Gets i s wait (inl free) = longer 1 4 i s (omega arith) (Gets-unlocked i s free.locked wait)
Inv-Gets i s wait (inr (o, own)) = Gets-Owned i o (s.phases o) s refl wait own

-- Wherever a schedule from the initialised lock on has come to, a CPU that waits in the loop of
-- `acquire` takes the lock within four more steps, if the CPU that has it, if any, takes them first
-- to release it.
pub run-Gets :
    (is : List ℕ) (s : Spin) (i : ℕ) → run is initlock ≡ some s → s.phases i ≡ spinning → Gets 4 i s
run-Gets is s i ran wait = Inv-Gets i s wait (subst Kept ran (run-Kept is initlock initlock-Inv))
