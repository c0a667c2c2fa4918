-- ===== src/Proc/Slots.antt =====
-- Lemmas on the slots of `ptable` of Xv6-Threads/src/proc.c: reading after writing, and the scan of
-- `allocproc`.
use os_wsl.Prelude.{
  ==_iff, Bool-cases, inl, inr, ℕ, zero, suc, ◌<◌, ◌≡◌, ◌≢◌, refl, ap, true, false, some, List, [],
  ◌∷◌, arith, length, set, ◌==◌, if◌then◌else◌,
}
use os_wsl.Proc.{Proc, Chan, is_unused, blank, proc_at, find_unused, wake, wakeup1}

pub proc_at-set :
    (t : List Proc) (i j : ℕ) (p : Proc)
    → i < length t
    → proc_at (set t i p) j ≡ (if i == j then p else proc_at t j)
proc_at-set [] i j p h = elim h [ ]
proc_at-set (q ∷ t) zero zero p h = ground arith
proc_at-set (q ∷ t) zero (suc j) p h = ground arith
proc_at-set (q ∷ t) (suc i) zero p h = ground arith
proc_at-set (q ∷ t) (suc i) (suc j) p h = ground (arith, proc_at-set t i j p)

pub proc_at-set_self : (t : List Proc) (i : ℕ) (p : Proc) → i < length t → proc_at (set t i p) i ≡ p
proc_at-set_self t i p h = ground (arith, proc_at-set t i i p)

pub proc_at-set_ne :
    (t : List Proc) (i j : ℕ) (p : Proc) → i ≢ j → proc_at (set t i p) j ≡ proc_at t j
proc_at-set_ne [] i j p h = refl
proc_at-set_ne (q ∷ t) zero zero p h = absurd (h refl)
proc_at-set_ne (q ∷ t) zero (suc j) p h = refl
proc_at-set_ne (q ∷ t) (suc i) zero p h = refl
proc_at-set_ne (q ∷ t) (suc i) (suc j) p h = proc_at-set_ne t i j p (omega arith)

pub set-set : (t : List Proc) (i : ℕ) (p q : Proc) → set (set t i p) i q ≡ set t i q
set-set [] i p q = refl
set-set (r ∷ t) zero p q = refl
set-set (r ∷ t) (suc i) p q = ap (λ (u : List Proc). r ∷ u) (set-set t i p q)

pub set-proc_at : (t : List Proc) (i : ℕ) → set t i (proc_at t i) ≡ t
set-proc_at [] i = refl
set-proc_at (r ∷ t) zero = refl
set-proc_at (r ∷ t) (suc i) = ap (λ (u : List Proc). r ∷ u) (set-proc_at t i)

pub proc_at-wakeup1 :
    (c : Chan) (t : List Proc) (i : ℕ) → proc_at (wakeup1 c t) i ≡ wake c (proc_at t i)
unfolding wakeup1 wake blank
proc_at-wakeup1 c [] i = refl
proc_at-wakeup1 c (p ∷ t) zero = refl
proc_at-wakeup1 c (p ∷ t) (suc i) = proc_at-wakeup1 c t i

pub length-wakeup1 : (c : Chan) (t : List Proc) → length (wakeup1 c t) ≡ length t
unfolding wakeup1
length-wakeup1 c [] = refl
length-wakeup1 c (p ∷ t) = ap suc (length-wakeup1 c t)

-- The scan finds a free slot, and every slot before it is in use.
pub find_unused-some :
    (t : List Proc) (i : ℕ)
    → find_unused t ≡ some i
    → (i < length t) × (is_unused (proc_at t i).state ≡ true)
unfolding find_unused
find_unused-some [] i h = cc
find_unused-some (p ∷ t) zero h = ground arith
find_unused-some (p ∷ t) (suc i) h = ground (arith, find_unused-some t i)

pub find_unused-first :
    (t : List Proc) (i j : ℕ)
    → find_unused t ≡ some i
    → j < i
    → is_unused (proc_at t j).state ≡ false
unfolding find_unused
find_unused-first [] i j h l = cc
find_unused-first (p ∷ t) zero j h l = elim l [ ]
find_unused-first (p ∷ t) (suc i) zero h l = ground arith
find_unused-first (p ∷ t) (suc i) (suc j) h l = ground (arith, find_unused-first t i j)

pub find_unused-ne :
    (t : List Proc) (i j : ℕ)
    → find_unused t ≡ some i
    → is_unused (proc_at t j).state ≡ false
    → (i == j) ≡ false
find_unused-ne t i j free used = elim (Bool-cases (i == j)) [
  | inr e ↦ e
  | inl e ↦
      let same : i ≡ j = (==_iff i j).0 e in
      let clash : is_unused (proc_at t j).state ≡ true =
        rw same at ((find_unused-some t i free).1) in
      ground arith
]
