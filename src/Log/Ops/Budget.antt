-- ===== src/Log/Ops/Budget.antt =====
-- The steps of Xv6-Threads/src/log.c: every operation is admitted with a budget of MAXOPBLOCKS writes.
use os_wsl.Prelude.{
  remove, ℕ, zero, suc, ◌+◌, ◌*◌, ◌≤◌, ◌≡◌, Bool, true, some, List, [], ◌∷◌, arith, length,
  length-append, get_elem?, set, if◌then◌else◌,
}
use os_wsl.Log.Ops.{
  LogState, new_log, begun, begin_op, end_op, committed, absorb, log_write, maxopblocks, logsize,
}

abbrev pub total : List ℕ → ℕ
total [] = 0
total (r ∷ rs) = r + total rs

-- No budget is larger than what an operation is admitted with.
abbrev pub Each : List ℕ → Type 0
Each [] = Unit
Each (r ∷ rs) = (r ≤ maxopblocks) × Each rs

-- The log, and for each operation between begin_op and end_op the writes that it may still make.
pub record System : Type 0 where
  pub log : LogState
  pub budgets : List ℕ

pub data Step (size : ℕ) : System → System → Type 0 where
  begins :
      (l : LogState) (bs : List ℕ)
      → (begin_op l).0 ≡ begun
      → Step size
          (record { log = l; budgets = bs })
          (record { log = (begin_op l).1; budgets = maxopblocks ∷ bs })
  writes :
      (l l' : LogState) (bs : List ℕ) (i r b : ℕ)
      → get_elem? bs i ≡ some (suc r)
      → log_write size b l ≡ some l'
      → Step size (record { log = l; budgets = bs }) (record { log = l'; budgets = set bs i r })
  ends :
      (l l' : LogState) (bs : List ℕ) (i r : ℕ) (last : Bool)
      → get_elem? bs i ≡ some r
      → end_op l ≡ some (last, l')
      → Step size (record { log = l; budgets = bs }) (record { log = l'; budgets = remove bs i })
  commits :
      (l : LogState) (bs : List ℕ)
      → l.committing ≡ true
      → Step size (record { log = l; budgets = bs }) (record { log = committed l; budgets = bs })

pub data Reach (size : ℕ) : System → Type 0 where
  fresh : Reach size (record { log = new_log; budgets = [] })
  next : {s s' : System} → Reach size s → Step size s s' → Reach size s'

-- The operations are counted, the log has room for all their budgets, and none is there while a
-- commit is under way.
pub record Fits (s : System) : Type 0 where
  pub counted : s.log.outstanding ≡ length s.budgets
  pub room : length s.log.lh + total s.budgets ≤ logsize
  pub few : length s.budgets ≤ 3
  pub small : Each s.budgets
  pub quiet : (if s.log.committing then length s.budgets else 0) ≡ 0

pub total-set :
    (bs : List ℕ) (i r : ℕ) → get_elem? bs i ≡ some (suc r) → total (set bs i r) + 1 ≡ total bs
total-set [] i r h = cc
total-set (b ∷ bs) zero r h = ground arith
total-set (b ∷ bs) (suc i) r h = omega (arith, total-set bs i r h)

pub total-remove : (bs : List ℕ) (i : ℕ) → total (remove bs i) ≤ total bs
total-remove [] i = omega arith
total-remove (b ∷ bs) zero = omega arith
total-remove (b ∷ bs) (suc i) = omega (arith, total-remove bs i)

pub length-absorb : (b : ℕ) (lh : List ℕ) → length (absorb b lh) ≤ length lh + 1
length-absorb b lh = ground (arith, length-append lh (b ∷ []))

pub total-Each : (bs : List ℕ) → Each bs → total bs ≤ length bs * maxopblocks
total-Each [] e = omega arith
total-Each (b ∷ bs) e = omega (arith, total-Each bs e.1)

pub set-Each : (bs : List ℕ) (i r : ℕ) → get_elem? bs i ≡ some (suc r) → Each bs → Each (set bs i r)
set-Each [] i r h e = tt
set-Each (b ∷ bs) zero r h e = (ground (arith, e.0), e.1)
set-Each (b ∷ bs) (suc i) r h e = (e.0, set-Each bs i r h e.1)

pub remove-Each : (bs : List ℕ) (i : ℕ) → Each bs → Each (remove bs i)
remove-Each [] i e = tt
remove-Each (b ∷ bs) zero e = e.1
remove-Each (b ∷ bs) (suc i) e = (e.0, remove-Each bs i e.1)
