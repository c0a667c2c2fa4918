-- ===== src/Spinlock/Exclusion.antt =====
-- At most one CPU has the lock of Xv6-Threads/src/spinlock.c, and its checks do not panic.
use os_wsl.Prelude.{
  ℕ, ◌≡◌, ◌≢◌, ◌⊎◌, inl, inr, refl, sym, ap, ◌∙◌, Bool, true, false, Option, none, some, List, [],
  ◌∷◌, arith, ◌==◌, Bool-cases, ==_iff,
}
use os_wsl.Spinlock.{
  Phase, outside, spinning, taken, inside, leaving, Spin, initlock, is_cpu, holding, moves, enter,
  exchange, set_cpu, let_go, unlock, next_step, step, run,
}

pub clash : true ≢ false
clash e = ground arith

-- From the xchg that takes the lock to the write that frees it.
abbrev pub critical : Phase → Bool
critical outside = false
critical spinning = false
critical taken = true
critical inside = true
critical leaving = true

-- What `lk->cpu` is while CPU `o` has the lock.
abbrev pub cpu_of : ℕ → Phase → Option ℕ
cpu_of o inside = some o
cpu_of o outside = none
cpu_of o spinning = none
cpu_of o taken = none
cpu_of o leaving = none

pub record Free (s : Spin) : Type 0 where
  pub locked : s.locked ≡ 0
  pub cpu : s.cpu ≡ none
  pub phases : (i : ℕ) → critical (s.phases i) ≡ false

pub record Owned (s : Spin) (o : ℕ) : Type 0 where
  pub locked : s.locked ≡ 1
  pub cpu : s.cpu ≡ cpu_of o (s.phases o)
  pub owner : critical (s.phases o) ≡ true
  pub others : (i : ℕ) → i ≢ o → critical (s.phases i) ≡ false

abbrev pub Inv : Spin → Type 0
Inv s = Free s ⊎ ((o : ℕ) × Owned s o)

abbrev Good : Option Spin → Type 0
Good none = ⊥
Good (some s) = Inv s

moves_self : (i : ℕ) (p : Phase) (phases : ℕ → Phase) → moves i p phases i ≡ p
moves_self i p phases = let same : (i == i) ≡ true = ground arith in rw same refl

moves_ne : (i j : ℕ) (p : Phase) (phases : ℕ → Phase) → j ≢ i → moves i p phases j ≡ phases j
moves_ne i j p phases ne = let apart : (j == i) ≡ false = ground arith in rw apart refl

-- Only the owner is critical.
owner_is : (s : Spin) (o i : ℕ) → Owned s o → critical (s.phases i) ≡ true → i ≡ o
owner_is s o i own crit = elim (Bool-cases (i == o)) [
  | inl e ↦ (==_iff i o).0 e
  | inr e ↦ absurd (clash (sym crit ∙ own.others i (ne e)))
]
  where
    ne : (i == o) ≡ false → i ≢ o
    ne e f = ground arith

-- A CPU that is not critical stays so while another moves to `p`.
moves-calm :
    (i : ℕ) (p : Phase) (phases : ℕ → Phase)
    → critical p ≡ false
    → (j : ℕ) → critical (phases j) ≡ false
    → critical (moves i p phases j) ≡ false
moves-calm i p phases calm j h = elim (Bool-cases (j == i)) [ inl e ↦ rw e calm | inr e ↦ rw e h ]

owner_ne : (s : Spin) (o i : ℕ) → Owned s o → critical (s.phases i) ≡ false → o ≢ i
owner_ne s o i own calm e = clash (sym own.owner ∙ ap (λ k. critical (s.phases k)) e ∙ calm)

-- A step between phases that are not critical.
calm-Inv :
    (i : ℕ) (p : Phase) (s : Spin)
    → critical (s.phases i) ≡ false
    → critical p ≡ false
    → Inv s
    → Inv (record s { phases = moves i p s.phases })
calm-Inv i p s was calm (inl free) = inl (record {
  locked = free.locked;
  cpu = free.cpu;
  phases = λ j. moves-calm i p s.phases calm j (free.phases j);
})
calm-Inv i p s was calm (inr (o, own)) =
    let stays : moves i p s.phases o ≡ s.phases o =
      moves_ne i o p s.phases (owner_ne s o i own was) in
    inr (
      o,
      record {
        locked = own.locked;
        cpu = own.cpu ∙ ap (cpu_of o) (sym stays);
        owner = ap critical stays ∙ own.owner;
        others = λ j ne. moves-calm i p s.phases calm j (own.others j ne);
      },
    )

holding-calm : (i : ℕ) (s : Spin) → critical (s.phases i) ≡ false → Inv s → holding i s ≡ false
holding-calm i s was (inl free) = rw free.locked refl
holding-calm i s was (inr (o, own)) =
    rw own.cpu (rw own.locked (not_cpu (s.phases o) (owner_ne s o i own was)))
  where
    not_cpu : (p : Phase) → o ≢ i → is_cpu i (cpu_of o p) ≡ false
    not_cpu outside ne = refl
    not_cpu spinning ne = refl
    not_cpu taken ne = refl
    not_cpu inside ne = ground arith
    not_cpu leaving ne = refl

-- The step of the owner, to a phase that is still critical.
owner-Inv :
    (i : ℕ) (p : Phase) (c : Option ℕ) (s : Spin)
    → critical (s.phases i) ≡ true
    → critical p ≡ true
    → c ≡ cpu_of i p
    → Inv s
    → Inv (record s { cpu = c; phases = moves i p s.phases })
owner-Inv i p c s was crit e (inl free) = absurd (clash (sym was ∙ free.phases i))
owner-Inv i p c s was crit e (inr (o, own)) =
    let this : i ≡ o = owner_is s o i own was in
    let here : moves i p s.phases i ≡ p = moves_self i p s.phases in
    inr (
      i,
      record {
        locked = own.locked;
        cpu = e ∙ ap (cpu_of i) (sym here);
        owner = ap critical here ∙ crit;
        others = λ j ne.
            ap critical (moves_ne i j p s.phases ne) ∙ own.others j (λ f. ne (f ∙ sym this));
      },
    )

enter-Good : (i : ℕ) (s : Spin) → s.phases i ≡ outside → Inv s → Good (enter i s)
unfolding enter
enter-Good i s e inv =
    rw (holding-calm i s (ap critical e) inv) (calm-Inv i spinning s (ap critical e) refl inv)

exchange-Inv : (i : ℕ) (s : Spin) → s.phases i ≡ spinning → Inv s → Inv (exchange i s)
unfolding exchange
exchange-Inv i s e (inl free) =
    let here : moves i taken s.phases i ≡ taken = moves_self i taken s.phases in
    rw free.locked (
      inr (
        i,
        record {
          locked = refl;
          cpu = free.cpu ∙ ap (cpu_of i) (sym here);
          owner = ap critical here;
          others = λ j ne. ap critical (moves_ne i j taken s.phases ne) ∙ free.phases j;
        },
      ))
exchange-Inv i s e (inr (o, own)) =
    rw own.locked
      (inr (o, record { locked = refl; cpu = own.cpu; owner = own.owner; others = own.others }))

let_go-Good : (i : ℕ) (s : Spin) → s.phases i ≡ inside → Inv s → Good (let_go i s)
unfolding let_go
let_go-Good i s e inv = rw (holds inv) (owner-Inv i leaving none s (ap critical e) refl refl inv)
  where
    holds : Inv s → holding i s ≡ true
    holds (inl free) = absurd (clash (sym (ap critical e) ∙ free.phases i))
    holds (inr (o, own)) =
        let this : i ≡ o = owner_is s o i own (ap critical e) in
        let cpu : s.cpu ≡ some i =
          own.cpu ∙ ap (λ k. cpu_of k (s.phases k)) (sym this) ∙ ap (cpu_of i) e in
        rw own.locked (rw cpu (ground arith))

unlock-Inv : (i : ℕ) (s : Spin) → s.phases i ≡ leaving → Inv s → Inv (unlock i s)
unfolding unlock
unlock-Inv i s e (inl free) = absurd (clash (sym (ap critical e) ∙ free.phases i))
unlock-Inv i s e (inr (o, own)) =
    let this : i ≡ o = owner_is s o i own (ap critical e) in
    inl (record {
      locked = refl;
      cpu = own.cpu ∙ ap (λ k. cpu_of k (s.phases k)) (sym this) ∙ ap (cpu_of i) e;
      phases = λ j. elim (Bool-cases (j == i)) [
        | inl f ↦ rw f refl
        | inr f ↦ rw f (own.others j (λ g. apart f (g ∙ sym this)))
      ];
    })
  where
    apart : {j : ℕ} → (j == i) ≡ false → j ≢ i
    apart f g = ground arith

next-Good : (i : ℕ) (p : Phase) (s : Spin) → s.phases i ≡ p → Inv s → Good (next_step i p s)
unfolding next_step set_cpu
next-Good i outside s e inv = enter-Good i s e inv
next-Good i spinning s e inv = exchange-Inv i s e inv
next-Good i taken s e inv = owner-Inv i inside (some i) s (ap critical e) refl refl inv
next-Good i inside s e inv = let_go-Good i s e inv
next-Good i leaving s e inv = unlock-Inv i s e inv

step-Good : (i : ℕ) (s : Spin) → Inv s → Good (step i s)
unfolding step
step-Good i s inv = next-Good i (s.phases i) s refl inv

Inv-one :
    (s : Spin)
    → Inv s
    → (i j : ℕ) → critical (s.phases i) ≡ true
    → critical (s.phases j) ≡ true
    → i ≡ j
Inv-one s (inl free) i j p q = absurd (clash (sym p ∙ free.phases i))
Inv-one s (inr (o, own)) i j p q = owner_is s o i own p ∙ sym (owner_is s o j own q)

-- At most one CPU is critical after a schedule, and none of its steps has panicked.
abbrev pub Excludes : Option Spin → Type 0
Excludes none = ⊥
Excludes (some s) = (i j : ℕ) → critical (s.phases i) ≡ true → critical (s.phases j) ≡ true → i ≡ j

abbrev pub Kept : Option Spin → Type 0
Kept none = ⊥
Kept (some s) = Inv s

pub run-Kept : (is : List ℕ) (s : Spin) → Inv s → Kept (run is s)
unfolding run
run-Kept [] s inv = inv
run-Kept (i ∷ is) s inv = next (step i s) (step-Good i s inv) (run-Kept is)
  where
    next :
        (o : Option Spin)
        → Good o
        → ((s' : Spin) → Inv s' → Kept (run is s'))
        → Kept (elim o [ none ↦ none | some s' ↦ run is s' ])
    next none g later = g
    next (some s') g later = later s' g

pub initlock-Inv : Inv initlock
initlock-Inv = inl (record { locked = refl; cpu = refl; phases = λ i. refl })

-- Whatever CPUs step in whatever order from the initialised lock on, no check of `acquire` or
-- `release` panics, and at most one CPU is between the xchg that takes the lock and the write that
-- frees it.
pub run-Excludes : (is : List ℕ) → Excludes (run is initlock)
run-Excludes is = all (run is initlock) (run-Kept is initlock initlock-Inv)
  where
    all : (o : Option Spin) → Kept o → Excludes o
    all none h = h
    all (some s) inv = Inv-one s inv
