-- ===== src/Proc/Invariant/Change.antt =====
-- The changes of one slot of `ptable` and the wakeups of Xv6-Threads/src/proc.c keep the invariant of
-- the table.
use os_wsl.Prelude.{ℕ, ◌<◌, ◌≡◌, ◌≢◌, refl, ◌⊎◌, true, false, none, some, List, arith, length, set}
use os_wsl.Proc.{Proc, Chan, Context, at_wait, at_join, sleeping, proc_at, is_zombie, wake, wakeup1}
use os_wsl.Proc.Slots.{proc_at-set, proc_at-wakeup1}
use os_wsl.Proc.Invariant.{
  is_alive, ParentsLive, awaits, waits_for_child, SleepsOnItself, NoLostWakeup, Inv,
}

-- Slot `i` becomes `p`: it does not die, its parent is the old one, none
-- or, for a slot that was free, alive, if it is a
-- zombie then it was one, with the same parent, and it does not fall asleep in `wait` or `join`.
pub record Keeps (t : List Proc) (i : ℕ) (p : Proc) : Type 0 where
  pub inside : i < length t
  pub lives : is_alive (proc_at t i).state ≡ true → is_alive p.state ≡ true
  pub kin :
      (p.parent ≡ (proc_at t i).parent)
      ⊎ (p.parent ≡ none)
      ⊎ ((j : ℕ) × (p.parent ≡ some j)
          × (is_alive (proc_at t j).state ≡ true)
          × (is_alive (proc_at t i).state ≡ false))
  pub dead :
      is_zombie p.state ≡ true
      → (is_zombie (proc_at t i).state ≡ true)
        × (p.parent ≡ (proc_at t i).parent)
        × (p.isthread ≡ (proc_at t i).isthread)
  pub no_wait : p.state ≡ sleeping → waits_for_child p.context ≡ false

set-ParentsLive :
    (t : List Proc) (i : ℕ) (p : Proc) → Keeps t i p → ParentsLive t → ParentsLive (set t i p)
set-ParentsLive t i p k h a b e =
    ground (arith, proc_at-set t i a p k.inside, proc_at-set t i b p k.inside, h a b, h i b)

awaits-false : (c : Context) (i : ℕ) (p : Proc) → waits_for_child c ≡ false → awaits c i p ≡ false
awaits-false at_wait i p h = cc
awaits-false at_join i p h = cc
awaits-false _ i p h = refl

set-SleepsOnItself :
    (t : List Proc) (i : ℕ) (p : Proc) → Keeps t i p → SleepsOnItself t → SleepsOnItself (set t i p)
set-SleepsOnItself t i p k h a = ground (arith, proc_at-set t i a p k.inside, h a)

pub awaits-same :
    (c : Context) (i : ℕ) (p q : Proc)
    → p.parent ≡ q.parent
    → p.isthread ≡ q.isthread
    → awaits c i p ≡ awaits c i q
awaits-same at_wait i p q e f = ground arith
awaits-same at_join i p q e f = ground arith
awaits-same _ i p q e f = refl

set-NoLostWakeup :
    (t : List Proc) (i : ℕ) (p : Proc) → Keeps t i p → NoLostWakeup t → NoLostWakeup (set t i p)
set-NoLostWakeup t i p k h a b = ground (
  arith,
  proc_at-set t i a p k.inside,
  proc_at-set t i b p k.inside,
  h a b,
  h a i,
  awaits-false p.context a (proc_at (set t i p) b),
  awaits-same (proc_at t a).context a p (proc_at t i),
)

set-no_self :
    (t : List Proc) (i : ℕ) (p : Proc)
    → Keeps t i p
    → ((a : ℕ) → (proc_at t a).parent ≢ some a)
    → (a : ℕ) → (proc_at (set t i p) a).parent ≢ some a
set-no_self t i p k h a = ground (arith, proc_at-set t i a p k.inside, h a)

pub set-Inv :
    {init : ℕ} (t : List Proc) (i : ℕ) (p : Proc) → Keeps t i p → Inv init t → Inv init (set t i p)
set-Inv {init} t i p k v = record {
  parents = set-ParentsLive t i p k v.parents;
  own_chan = set-SleepsOnItself t i p k v.own_chan;
  no_lost = set-NoLostWakeup t i p k v.no_lost;
  no_self = set-no_self t i p k v.no_self;
  init_alive = ground (arith, proc_at-set t i init p k.inside, v.init_alive, k.lives);
  init_root = ground (arith, proc_at-set t i init p k.inside, v.init_root, v.init_alive, k.kin);
}

-- What `wake` leaves alone.
pub record Woken (p q : Proc) : Type 0 where
  pub parent_eq : q.parent ≡ p.parent
  pub thread_eq : q.isthread ≡ p.isthread
  pub context_eq : q.context ≡ p.context
  pub chan_same : q.chan ≡ p.chan
  pub alive_eq : is_alive q.state ≡ is_alive p.state
  pub zombie_eq : is_zombie q.state ≡ is_zombie p.state
  pub asleep : q.state ≡ sleeping → p.state ≡ sleeping

pub wake-Woken : (c : Chan) (p : Proc) → Woken p (wake c p)
unfolding wake
wake-Woken c p = ground arith

-- A wakeup on any channel keeps the invariant.
pub wakeup1-Inv : {init : ℕ} (c : Chan) (t : List Proc) → Inv init t → Inv init (wakeup1 c t)
wakeup1-Inv {init} c t v = record {
  parents = λ a b e. ground (
    arith,
    proc_at-wakeup1 c t a,
    proc_at-wakeup1 c t b,
    wake-Woken c (proc_at t a),
    wake-Woken c (proc_at t b),
    v.parents a b,
  );
  own_chan = λ a. ground (arith, proc_at-wakeup1 c t a, wake-Woken c (proc_at t a), v.own_chan a);
  no_lost = λ a b e. ground (
    arith,
    proc_at-wakeup1 c t a,
    proc_at-wakeup1 c t b,
    wake-Woken c (proc_at t a),
    wake-Woken c (proc_at t b),
    v.no_lost a b,
    awaits-same (proc_at t a).context a (proc_at (wakeup1 c t) b) (proc_at t b),
  );
  no_self = λ a. ground (arith, proc_at-wakeup1 c t a, wake-Woken c (proc_at t a), v.no_self a);
  init_alive =
      ground (arith, proc_at-wakeup1 c t init, wake-Woken c (proc_at t init), v.init_alive);
  init_root = ground (arith, proc_at-wakeup1 c t init, wake-Woken c (proc_at t init), v.init_root);
}
