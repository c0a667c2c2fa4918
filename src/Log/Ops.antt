-- ===== src/Log/Ops.antt =====
-- The operations that share a transaction: `begin_op`, `end_op` and `log_write` of
-- Xv6-Threads/src/log.c. A pass under `log.lock` returns, sleeps on `&log`, or panics (`none`).
pub mod Budget
pub mod Room
use os_wsl.Prelude.{
  ℕ, ◌+◌, ◌*◌, Bool, true, false, ◌||◌, Option, none, some, List, [], ◌∷◌, ◌++◌, length, u32,
  int_lt, leb, ◌==◌, if◌then◌else◌,
}
use os_wsl.Log.Header.{member}

-- `MAXOPBLOCKS` and `LOGSIZE` of Xv6-Threads/src/param.h
abbrev pub maxopblocks : ℕ
maxopblocks = 10

abbrev pub logsize : ℕ
logsize = 30

-- `struct log`, without its lock and its place on disk
pub record LogState : Type 0 where
  pub lh : List ℕ
  pub outstanding : ℕ
  pub committing : Bool

abbrev pub new_log : LogState
new_log = record { lh = []; outstanding = 0; committing = false }

pub data BeginEnd : Type 0 where
  begun begin_sleeps : BeginEnd

-- One pass of the loop of `begin_op`.
unfoldable pub begin_op : LogState → BeginEnd × LogState
begin_op l =
    if l.committing
    then (begin_sleeps, l)
    else (if int_lt logsize (u32 (length l.lh + (l.outstanding + 1) * maxopblocks))
        then (begin_sleeps, l)
        else (begun, record l { outstanding = u32 (l.outstanding + 1) }))

-- `end_op` up to the release of the lock, with `do_commit`; it wakes `&log` if it is false.
unfoldable pub end_op : LogState → Option (Bool × LogState)
end_op l =
    let left = u32 (l.outstanding + 4294967295) in
    if l.committing
    then none
    else (if left == 0
        then some (true, record l { outstanding = left; committing = true })
        else some (false, record l { outstanding = left }))

-- The rest of `end_op`, behind `commit`, which empties the header; it wakes `&log`.
unfoldable pub committed : LogState → LogState
committed l = record l { lh = []; committing = false }

-- The search of `log_write` for the block, which stores the number where it is already.
abbrev pub absorb : ℕ → List ℕ → List ℕ
absorb b lh = if member b lh then lh else lh ++ (b ∷ [])

-- `log_write` of block `b`, with a log of `size` blocks on disk.
unfoldable pub log_write : ℕ → ℕ → LogState → Option LogState
log_write size b l =
    if leb logsize (length l.lh) || leb size (length l.lh + 1)
    then none
    else (if int_lt l.outstanding 1 then none else some (record l { lh = absorb b l.lh }))
