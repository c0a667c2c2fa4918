-- ===== src/Proc/Run/Closing.antt =====
-- The closing of files by `exit` of Xv6-Threads/src/proc.c keeps the invariant of the process table.
use os_wsl.Prelude.{ℕ, ◌≡◌, refl, Option, none, some, List, [], ◌∷◌, arith}
use os_wsl.Proc.{Proc, Chan, running, proc_at, wakeup1, wake}
use os_wsl.Proc.Slots.{proc_at-wakeup1}
use os_wsl.Proc.Services.{Services}
use os_wsl.Proc.Create.{Kernel}
use os_wsl.Proc.Leave.{exit_files, close_files, close_cwd, wake_all}
use os_wsl.Proc.Invariant.{Inv}
use os_wsl.Proc.Invariant.Change.{set-Inv, wakeup1-Inv}
use os_wsl.Proc.Run.{Runs}
use os_wsl.Proc.Run.Keeping.{Good, retained}

-- Closing files wakes processes, and leaves the one that closes them running.
record Closing {S : Type 0} (cur init : ℕ) (k : Kernel S) : Type 0 where
  good : Inv init k.procs
  on_cpu : (proc_at k.procs cur).state ≡ running
  same_init : k.initproc ≡ init

wake-running : (c : Chan) (p : Proc) → p.state ≡ running → (wake c p).state ≡ running
unfolding wake
wake-running c p h = ground arith

module _ (v : Services) (cur init : ℕ) where
  wake_all-running :
      (cs : List Chan) (t : List Proc)
      → (proc_at t cur).state ≡ running
      → (proc_at (wake_all v cs t) cur).state ≡ running
  unfolding wake_all
  wake_all-running [] t h = h
  wake_all-running (c ∷ cs) t h =
      wake_all-running cs (wakeup1 c t)
        (rw (proc_at-wakeup1 c t cur) (wake-running c (proc_at t cur) h))

  wake_all-Inv : (cs : List Chan) (t : List Proc) → Inv init t → Inv init (wake_all v cs t)
  unfolding wake_all
  wake_all-Inv [] t h = h
  wake_all-Inv (c ∷ cs) t h = wake_all-Inv cs (wakeup1 c t) (wakeup1-Inv c t h)

  close_files-Closing :
      (fs : List (Option ℕ)) (k : Kernel v.State)
      → Closing cur init k
      → Closing cur init (close_files v fs k)
  unfolding close_files
  close_files-Closing [] k h = h
  close_files-Closing (none ∷ fs) k h = close_files-Closing fs k h
  close_files-Closing (some f ∷ fs) k h =
      let (s, woken) = v.fileclose f k.env in
      close_files-Closing fs (record k { env = s; procs = wake_all v woken k.procs })
        (record {
          good = wake_all-Inv woken k.procs h.good;
          on_cpu = wake_all-running woken k.procs h.on_cpu;
          same_init = h.same_init;
        })

  close_cwd-Closing :
      (ip : Option ℕ) (k : Kernel v.State)
      → Closing cur init k
      → Closing cur init (close_cwd v ip k)
  unfolding close_cwd
  close_cwd-Closing none k h = h
  close_cwd-Closing (some ip) k h = record {
    good = wake_all-Inv (v.iput ip k.env).1 k.procs h.good;
    on_cpu = wake_all-running (v.iput ip k.env).1 k.procs h.on_cpu;
    same_init = h.same_init;
  }

pub exit_files-Good :
    (v : Services) (cur : ℕ) (k : Kernel v.State) → Runs cur k → Good k → Good (exit_files v cur k)
unfolding exit_files
exit_files-Good v cur k r g =
    let p = proc_at k.procs cur in
    let files = close_files v p.ofile k in
    let k' = close_cwd v p.cwd files in
    let done : Closing cur k.initproc k' = close_cwd-Closing v cur k.initproc p.cwd files (
      close_files-Closing v cur k.initproc p.ofile k
        (record { good = g; on_cpu = r.on_cpu; same_init = refl })) in
    rw done.same_init (
      set-Inv k'.procs cur _
        (retained k'.procs cur _ (rw done.on_cpu) (rw done.on_cpu) refl (λ e. cc done.on_cpu))
        done.good)
