-- ===== src/Log/Tests.antt =====
-- A small disk: the theorems on Xv6-Threads/src/log.c at it.
use os_wsl.Prelude.{◌≡◌, refl, inr, [], ◌∷◌, arith, some, Bool, length, ◌<◌}
use os_wsl.Log.{Blocks, decode, commit, recovered}
use os_wsl.Log.Ops.{LogState, new_log, begin_op, end_op, log_write, absorb, maxopblocks}
use os_wsl.Log.Ops.Budget.{total, fresh, next, begins}
use os_wsl.Log.Ops.Room.{log_write_lem}
use os_wsl.Log.Recovery.{crashed}
use os_wsl.Log.Crash.{crash_atomic}

-- Each block holds a 0 on disk, and its own number in the cache.
abbrev disk : Blocks
disk b = 0 ∷ []

abbrev cache : Blocks
cache b = b ∷ []

-- The log is at block 2. With the two log blocks and the header written, block 41 has been committed.
crash_atomic_example : recovered 2 (crashed 3 (commit 2 (40 ∷ 41 ∷ []) cache).0 disk) 41 ≡ 41 ∷ []
unfolding decode
crash_atomic_example =
    crash_atomic 2 31 3 (40 ∷ 41 ∷ []) cache disk 41 refl
      (inr (omega arith), (inr (omega arith), tt)) (omega arith) (inr (omega arith))

log_write_lem_example :
    (log_write 30 55 (begin_op new_log).1
      ≡ some (record ((begin_op new_log).1) { lh = absorb 55 (begin_op new_log).1.lh }))
    × ((length (begin_op new_log).1.lh ≡ 29) → total (maxopblocks ∷ []) ≡ 1)
    × ((last : Bool) × (l : LogState) × (end_op (begin_op new_log).1 ≡ some (last, l)))
    × (length (begin_op new_log).1.lh < 30)
unfolding begin_op
log_write_lem_example = log_write_lem 0 9 55 (next fresh (begins new_log [] refl)) refl
