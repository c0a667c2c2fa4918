-- ===== src/Proc/Tests/Rounds.antt =====
-- Runs and scheduling rounds of small kernels with the code of Xv6-Threads/src/proc.c.
use os_wsl.Prelude.{ℕ, ◌%◌, ◌≡◌, ◌≢◌, refl, true, false, ◌&&◌, none, some, List, [], ◌∷◌, arith}
use os_wsl.Proc.{Proc, blank, runnable, running, proc_at, is_zombie}
use os_wsl.Proc.Create.{Kernel, put, fork}
use os_wsl.Proc.Reap.{wait, is_child}
use os_wsl.Proc.Leave.{resume}
use os_wsl.Proc.Scheduler.{krand, dispatched, scheduler}
use os_wsl.Proc.Scheduler.Lottery.{stakes, owner, scheduler-owner}
use os_wsl.Proc.Invariant.{is_alive}
use os_wsl.Proc.Run.{Runs, Reach, schedule, resumes, forks, waits, here, next}
use os_wsl.Proc.Run.Safe.{userinit-eq, no_lost_wakeup, family_tree}
use os_wsl.Proc.Tests.{tiny, booted, picked, begun, with_child, waiting}

picked_runs : (proc_at picked.procs 0).state ≡ running
unfolding scheduler blank
picked_runs = refl

begun-Runs : Runs 0 begun
unfolding scheduler blank resume
begun-Runs = record { on_cpu = refl; in_call = refl }

waiting_reached : Reach tiny booted waiting
unfolding scheduler blank resume fork
waiting_reached =
    next
      (next (next (next here (schedule booted)) (resumes 0 picked picked_runs))
        (forks 0 begun begun-Runs))
      (waits 0 with_child (record { on_cpu = refl; in_call = refl }))

no_lost_wakeup_example :
    is_child 0 (proc_at waiting.procs 1) && is_zombie (proc_at waiting.procs 1).state ≡ false
unfolding scheduler blank resume fork wait
no_lost_wakeup_example =
    no_lost_wakeup tiny 5 9 7 (some 1) (9 ∷ 20 ∷ 21 ∷ 22 ∷ []) (20 ∷ 21 ∷ 22 ∷ []) 0 1 refl
      (userinit-eq tiny 5 9 7 (some 1) (9 ∷ 20 ∷ 21 ∷ 22 ∷ []) (20 ∷ 21 ∷ 22 ∷ []) refl)
      waiting_reached refl

family_tree_example :
    (is_alive (proc_at waiting.procs 0).state ≡ true)
    × (◌≢◌ {A = ℕ} 1 0)
    × (is_alive (proc_at waiting.procs waiting.initproc).state ≡ true)
    × ((proc_at waiting.procs waiting.initproc).parent ≡ none)
unfolding scheduler blank resume fork wait
family_tree_example =
    family_tree tiny 5 9 7 (some 1) (9 ∷ 20 ∷ 21 ∷ 22 ∷ []) (20 ∷ 21 ∷ 22 ∷ []) 1 0 refl
      (userinit-eq tiny 5 9 7 (some 1) (9 ∷ 20 ∷ 21 ∷ 22 ∷ []) (20 ∷ 21 ∷ 22 ∷ []) refl)
      waiting_reached refl

scheduler-owner_example :
    (i : ℕ) × (owner booted.procs (krand 7 % stakes booted.procs) ≡ some i)
    × ((proc_at booted.procs i).state ≡ runnable)
    × (scheduler booted
        ≡ (some i, put i (dispatched (proc_at booted.procs i)) (record booted { rng = krand 7 })))
unfolding blank
scheduler-owner_example = scheduler-owner booted (omega arith) (omega arith)

-- Three processes whose tickets, each within the range of an `int`, add up to 2 ^ 32.
abbrev runner : ℕ → Proc
runner n = record blank { state = runnable; tickets = n }

abbrev overfull : Kernel (List ℕ)
overfull = record booted { procs = runner 2147483647 ∷ runner 2147483647 ∷ runner 2 ∷ [] }
