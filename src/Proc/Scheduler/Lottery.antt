-- ===== src/Proc/Scheduler/Lottery.antt =====
-- The lottery of Xv6-Lottery/src/proc.c against its abstract description: the tickets of the
-- RUNNABLE slots are numbered from 0 in the order of the table, and one number is drawn.
use os_wsl.Prelude.{
  ℕ, zero, suc, ◌+◌, ◌-◌, ◌%◌, ◌≤◌, ◌<◌, ◌≡◌, refl, ap, ◌∙◌, inl, inr, false, Option, none, some,
  List, [], ◌∷◌, arith, u32, int_min, ltb, leb, min, ◌&&◌, length, ◌==◌, if◌then◌else◌, Bool-cases,
}
use os_wsl.Proc.{Proc, blank, runnable, proc_at, is_runnable}
use os_wsl.Proc.Create.{Kernel, put}
use os_wsl.Proc.Scheduler.{stake, total_from, pick_from, krand, scheduler, dispatched}

-- The tickets in the lottery, as a number that does not wrap.
abbrev pub stakes : List Proc → ℕ
stakes [] = 0
stakes (p ∷ t) = stake p + stakes t

abbrev pub shift : Option ℕ → Option ℕ
shift none = none
shift (some i) = some (suc i)

-- The slot that holds ticket number `w`.
unfoldable pub owner : List Proc → ℕ → Option ℕ
owner [] w = none
owner (p ∷ t) w =
    let rest = shift (owner t (w - stake p)) in if ltb w (stake p) then some 0 else rest

abbrev pub hit : ℕ → Option ℕ → ℕ
hit i none = 0
hit i (some j) = if j == i then 1 else 0

-- How many of the numbers below `n` belong to slot `i`.
unfoldable pub draws : List Proc → ℕ → ℕ → ℕ
draws t i zero = 0
draws t i (suc n) = hit i (owner t n) + draws t i n

pub total_from-mod : (c : ℕ) (t : List Proc) → c < 4294967296 → total_from c t ≡ u32 (c + stakes t)
unfolding total_from
total_from-mod c [] h = omega arith
total_from-mod c (p ∷ t) h = elim (Bool-cases (is_runnable p.state)) [
  | inl r ↦ rw r (omega (arith, total_from-mod (u32 (c + p.tickets)) t (omega arith)))
  | inr r ↦ rw r (omega (arith, total_from-mod c t h))
]

abbrev pub plus : ℕ → Option ℕ → Option ℕ
plus i none = none
plus i (some j) = some (i + j)

plus-shift : (i : ℕ) (o : Option ℕ) → plus (i + 1) o ≡ plus i (shift o)
plus-shift i none = refl
plus-shift i (some j) = ap (λ (n : ℕ). some n) (omega arith)

-- The scan of the table finds the owner of the ticket, if no sum leaves the range of an `int`.
pub pick_from-eq-owner :
    (w c : ℕ) (t : List Proc) (i : ℕ)
    → c ≤ w
    → w < int_min
    → c + stakes t < int_min
    → pick_from w c t i ≡ plus i (owner t (w - c))
unfolding pick_from owner
pick_from-eq-owner w c [] i h hw b = refl
pick_from-eq-owner w c (p ∷ t) i h hw b = elim (Bool-cases (is_runnable p.state)) [
  | inl r ↦ ground (
    arith,
    pick_from-eq-owner w (u32 (c + p.tickets)) t (i + 1),
    plus-shift i (owner t (w - c - p.tickets)),
  )
  | inr r ↦ ground (arith, pick_from-eq-owner w c t (i + 1), plus-shift i (owner t (w - c)))
]

-- The tickets before those of slot `i`.
abbrev pub before : List Proc → ℕ → ℕ
before [] i = 0
before (p ∷ t) zero = 0
before (p ∷ t) (suc i) = stake p + before t i

hit-shift : (i : ℕ) (o : Option ℕ) → hit (suc i) (shift o) ≡ hit i o
hit-shift i none = refl
hit-shift i (some j) = ground arith

hit-shift-zero : (o : Option ℕ) → hit zero (shift o) ≡ 0
hit-shift-zero none = refl
hit-shift-zero (some j) = ground arith

-- The tickets of slot `i` are those from `before t i` on.
hit-owner :
    (t : List Proc) (i w : ℕ)
    → hit i (owner t w)
      ≡ (if leb (before t i) w && ltb w (before t i + stake (proc_at t i)) then 1 else 0)
unfolding owner blank
hit-owner [] i w = ground arith
hit-owner (p ∷ t) zero w = ground (arith, hit-shift-zero (owner t (w - stake p)))
hit-owner (p ∷ t) (suc i) w =
    ground (arith, hit-shift i (owner t (w - stake p)), hit-owner t i (w - stake p))

draws-eq-min : (t : List Proc) (i n : ℕ) → draws t i n ≡ min (n - before t i) (stake (proc_at t i))
unfolding draws
draws-eq-min t i zero = omega arith
draws-eq-min t i (suc n) = ground (arith, hit-owner t i n, draws-eq-min t i n)

before-le : (t : List Proc) (i : ℕ) → before t i + stake (proc_at t i) ≤ stakes t
unfolding blank
before-le [] i = omega arith
before-le (p ∷ t) zero = omega arith
before-le (p ∷ t) (suc i) = omega (arith, before-le t i)

-- Among the numbers that can be drawn, as many belong to a slot as it has tickets in the lottery:
-- none if it is not RUNNABLE.
pub draws-eq-stake : (t : List Proc) (i : ℕ) → draws t i (stakes t) ≡ stake (proc_at t i)
draws-eq-stake t i = omega (arith, draws-eq-min t i (stakes t), before-le t i)

-- Each number below the total belongs to a slot of the table.
owner_of_lt :
    (t : List Proc) (w : ℕ)
    → w < stakes t
    → (i : ℕ) × (owner t w ≡ some i) × (i < length t) × ((proc_at t i).state ≡ runnable)
unfolding owner
owner_of_lt [] w h = elim h [ ]
owner_of_lt (p ∷ t) w h = elim (Bool-cases (ltb w (stake p))) [
  | inl here ↦ (0, rw here, omega arith, ground arith)
  | inr past ↦
      let (i, own, lt, run) = owner_of_lt t (w - stake p) (ground arith) in
      (suc i, rw (past, own), omega arith, run)
]

plus_zero : (o : Option ℕ) → plus 0 o ≡ o
plus_zero none = refl
plus_zero (some j) = ap (λ (n : ℕ). some n) (omega arith)

pick_from-owner :
    (w : ℕ) (t : List Proc) → w < int_min → stakes t < int_min → pick_from w 0 t 0 ≡ owner t w
pick_from-owner w t h b = ground (arith, pick_from-eq-owner w 0 t 0, plus_zero (owner t w))

positive : (n : ℕ) → 0 < n → (n == 0) ≡ false
positive n h = ground arith

-- The scheduler runs the owner of the ticket `krand() % total`, for tickets that add up to an
-- `int`: it advances the generator, charges the slot one tick, makes it RUNNING and returns it, and
-- changes nothing else.
pub scheduler-owner :
    {S : Type 0} (k : Kernel S)
    → 0 < stakes k.procs
    → stakes k.procs < int_min
    → (i : ℕ) × (owner k.procs (krand k.rng % stakes k.procs) ≡ some i)
      × ((proc_at k.procs i).state ≡ runnable)
      × (scheduler k
          ≡ (some i, put i (dispatched (proc_at k.procs i)) (record k { rng = krand k.rng })))
unfolding scheduler
scheduler-owner k h b =
    let w = krand k.rng % stakes k.procs in
    let in_range : w < stakes k.procs = omega arith in
    let (i, own, lt, run) = owner_of_lt k.procs w in_range in
    let sum : total_from 0 k.procs ≡ stakes k.procs = omega (arith, total_from-mod 0 k.procs) in
    let picked = pick_from-owner w k.procs (omega arith) b ∙ own in
    (i, own, run, rw sum (rw (positive _ h) (rw picked)))

-- With a total that is a multiple of 2 ^ 32, 0 among them, the scheduler runs nothing and changes
-- nothing, whatever the generator's state.
pub scheduler_idle :
    {S : Type 0} (k : Kernel S) → stakes k.procs % 4294967296 ≡ 0 → scheduler k ≡ (none, k)
unfolding scheduler
scheduler_idle k h = ground (arith, total_from-mod 0 k.procs)
