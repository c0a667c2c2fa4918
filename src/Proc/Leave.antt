-- ===== src/Proc/Leave.antt =====
-- `exit`, `yield`, `sleep`, `wakeup`, and `kill` of Xv6-Threads/src/proc.c.
pub mod Passing
pub mod Kill
use os_wsl.Prelude.{
  ℕ, zero, suc, ◌+◌, true, Option, none, some, List, [], ◌∷◌, map, length, set, minus_one, ◌==◌,
  if◌then◌else◌,
}
use os_wsl.Proc.{
  Proc, Chan, Context, at_wait, at_join, zombie, runnable, null, proc_chan, at_yield, at_sleep,
  at_exit, live, is_zombie, is_sleeping, same_slot, proc_at, wakeup1,
}
use os_wsl.Proc.Services.{Services}
use os_wsl.Proc.Create.{Kernel, put}
use os_wsl.Proc.Reap.{go_to_sleep}

-- A pointer to a process as a channel.
abbrev pub chan_of : Option ℕ → Chan
chan_of none = null
chan_of (some i) = proc_chan i

-- The body of the loop of `exit` at slot `i`.
unfoldable pub pass_child : ℕ → ℕ → ℕ → List Proc → List Proc
unfolding wakeup1
pass_child cur init i t =
    let p = proc_at t i in
    let t' = set t i (record p { parent = some init }) in
    if same_slot p.parent cur
    then (if is_zombie p.state then wakeup1 (proc_chan init) t' else t')
    else t

-- That loop over the `n` slots from `i` on.
unfoldable pub pass_children : ℕ → ℕ → ℕ → ℕ → List Proc → List Proc
pass_children cur init zero i t = t
pass_children cur init (suc n) i t = pass_children cur init n (i + 1) (pass_child cur init i t)

-- `exit` under `ptable.lock`, up to the call of `sched`.
unfoldable pub exit_table : {S : Type 0} → ℕ → Kernel S → Kernel S
unfolding wakeup1
exit_table cur k =
    let woken = wakeup1 (chan_of (proc_at k.procs cur).parent) k.procs in
    let passed = pass_children cur k.initproc (length k.procs) 0 woken in
    let p = proc_at passed cur in
    record k { procs = set passed cur (record p { state = zombie; context = at_exit }) }

-- `yield`
unfoldable pub yield : {S : Type 0} → ℕ → Kernel S → Kernel S
yield cur k = put cur (record (proc_at k.procs cur) { state = runnable; context = at_yield }) k

-- `sleep` with another lock, up to the call of `sched`, and what it does when it is resumed
unfoldable pub sleep : {S : Type 0} → Chan → ℕ → Kernel S → Kernel S
unfolding go_to_sleep
sleep chan cur k = go_to_sleep at_sleep chan cur k

unfoldable pub tidy_up : {S : Type 0} → ℕ → Kernel S → Kernel S
tidy_up cur k = put cur (record (proc_at k.procs cur) { chan = null; context = live }) k

unfoldable pub wakeup : {S : Type 0} → Chan → Kernel S → Kernel S
unfolding wakeup1
wakeup chan k = record k { procs = wakeup1 chan k.procs }

-- The slot that `kill` has found.
abbrev pub killed_slot : Proc → Proc
killed_slot p = record p {
  killed = true;
  state = if is_sleeping p.state then runnable else p.state;
}

unfoldable pub kill_in : ℕ → List Proc → ℕ × List Proc
kill_in pid [] = (minus_one, [])
kill_in pid (p ∷ t) =
    let (r, t') = kill_in pid t in if p.pid == pid then (0, killed_slot p ∷ t) else (r, p ∷ t')

unfoldable pub kill : {S : Type 0} → ℕ → Kernel S → ℕ × Kernel S
unfolding kill_in
kill pid k = let (r, t) = kill_in pid k.procs in (r, record k { procs = t })

module _ (v : Services) where
  open v use {State, fileclose, iput}

  -- The wakeups that a close brings about.
  unfoldable pub wake_all : List Chan → List Proc → List Proc
  unfolding wakeup1
  wake_all [] t = t
  wake_all (c ∷ cs) t = wake_all cs (wakeup1 c t)

  -- The loop of `exit` over the open files: each one is closed and its descriptor cleared.
  unfoldable pub close_files : List (Option ℕ) → Kernel State → Kernel State
  unfolding wake_all
  close_files [] k = k
  close_files (none ∷ fs) k = close_files fs k
  close_files (some f ∷ fs) k =
      let (s, woken) = fileclose f k.env in
      close_files fs (record k { env = s; procs = wake_all woken k.procs })

  unfoldable pub close_cwd : Option ℕ → Kernel State → Kernel State
  unfolding wake_all
  close_cwd none k = k
  close_cwd (some ip) k =
      let (s, woken) = iput ip k.env in record k { env = s; procs = wake_all woken k.procs }

  -- The first half of `exit`, before it takes `ptable.lock`.
  unfoldable pub exit_files : ℕ → Kernel State → Kernel State
  unfolding close_files close_cwd
  exit_files cur k =
      let p = proc_at k.procs cur in
      let k' = close_cwd p.cwd (close_files p.ofile k) in
      let cleared = map (λ (f : Option ℕ). none) p.ofile in
      put cur (record (proc_at k'.procs cur) { ofile = cleared; cwd = none }) k'

  -- `exit`; `none` is the panic of the first process.
  unfoldable pub exit : ℕ → Kernel State → Option (Kernel State)
  unfolding exit_files exit_table
  exit cur k = if cur == k.initproc then none else some (exit_table cur (exit_files cur k))

-- What a process does first when the scheduler has switched to it.
unfoldable pub resume : {S : Type 0} → Context → ℕ → Kernel S → Kernel S
unfolding tidy_up
resume at_sleep cur k = tidy_up cur k
resume at_wait cur k = tidy_up cur k
resume at_join cur k = tidy_up cur k
resume _ cur k = put cur (record (proc_at k.procs cur) { context = live }) k
