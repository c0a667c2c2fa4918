-- ===== src/Proc/Invariant/Doze.antt =====
-- Falling asleep in `wait` or `join` of Xv6-Threads/src/proc.c keeps the invariant of the table.
use os_wsl.Prelude.{ℕ, ◌<◌, ◌≡◌, false, ◌&&◌, List, arith, length, set}
use os_wsl.Proc.{Proc, Context, sleeping, running, proc_chan, proc_at, is_zombie}
use os_wsl.Proc.Slots.{proc_at-set}
use os_wsl.Proc.Invariant.{awaits, NoLostWakeup, Inv}

-- The slot `i` of a running process, asleep on itself.
abbrev pub dozing : Context → List Proc → ℕ → Proc
dozing c t i = record (proc_at t i) { chan = proc_chan i; state = sleeping; context = c }

module _ {init : ℕ} (t : List Proc) (i : ℕ) (c : Context) (inside : i < length t)
    (runs : (proc_at t i).state ≡ running)
    (none_dead : (j : ℕ) → awaits c i (proc_at t j) && is_zombie (proc_at t j).state ≡ false)
    (v : Inv init t) where
  asleep-NoLostWakeup : NoLostWakeup (set t i (dozing c t i))
  asleep-NoLostWakeup a b = ground (
    arith,
    proc_at-set t i a (dozing c t i) inside,
    proc_at-set t i b (dozing c t i) inside,
    none_dead b,
    none_dead i,
    v.no_lost a b,
  )

  pub doze-Inv : Inv init (set t i (dozing c t i))
  doze-Inv = record {
    parents = λ a b. ground (
      arith,
      proc_at-set t i a (dozing c t i) inside,
      proc_at-set t i b (dozing c t i) inside,
      v.parents a b,
      v.parents i b,
    );
    own_chan = λ a. ground (arith, proc_at-set t i a (dozing c t i) inside, v.own_chan a);
    no_lost = asleep-NoLostWakeup;
    no_self = λ a. ground (arith, proc_at-set t i a (dozing c t i) inside, v.no_self a);
    init_alive = ground (arith, proc_at-set t i init (dozing c t i) inside, v.init_alive);
    init_root = ground (arith, proc_at-set t i init (dozing c t i) inside, v.init_root);
  }
