-- ===== src/Proc/Leave/Passing.antt =====
-- The loop of `exit` in Xv6-Threads/src/proc.c: it gives every child of the dying process to the
-- first process, and wakes that one for each zombie among them.
use os_wsl.Prelude.{
  ℕ, zero, suc, ◌+◌, ◌≤◌, ◌<◌, ◌≡◌, ◌≢◌, refl, ◌∙◌, true, ◌&&◌, Option, some, List, [], ◌∷◌, arith,
  length, length-set, set, ltb, leb, ◌==◌, if◌then◌else◌, Bool-cases, ==_iff, inl, inr,
}
use os_wsl.Proc.{Proc, sleeping, blank, proc_chan, proc_at, is_zombie, same_slot, wake}
use os_wsl.Proc.Slots.{proc_at-set, proc_at-wakeup1, length-wakeup1}
use os_wsl.Proc.Leave.{pass_child, pass_children}
use os_wsl.Proc.Invariant.{is_alive}
use os_wsl.Proc.Invariant.Change.{wake-Woken}

module _ (cur init : ℕ) where
  abbrev pub new_parent : Option ℕ → Option ℕ
  new_parent o = if same_slot o cur then some init else o

  -- Slot `q` comes from slot `p` by wakeups, with the parent `o`.
  pub record Came (o : Option ℕ) (p q : Proc) : Type 0 where
    pub parent_eq : q.parent ≡ o
    pub thread_eq : q.isthread ≡ p.isthread
    pub context_eq : q.context ≡ p.context
    pub chan_same : q.chan ≡ p.chan
    pub alive_eq : is_alive q.state ≡ is_alive p.state
    pub zombie_eq : is_zombie q.state ≡ is_zombie p.state
    pub asleep : q.state ≡ sleeping → p.state ≡ sleeping

  abbrev pub NotWaiting : Proc → Type 0
  NotWaiting p = p.state ≡ sleeping → p.chan ≢ proc_chan init

  pub in_range : (t : List Proc) (i : ℕ) → same_slot (proc_at t i).parent cur ≡ true → i < length t
  unfolding blank
  in_range [] i h = cc
  in_range (p ∷ t) zero h = omega arith
  in_range (p ∷ t) (suc i) h = omega (arith, in_range t i h)

  moved : List Proc → ℕ → Proc
  moved t i = record (proc_at t i) { parent = some init }

  pub pass_child-Came :
      (t : List Proc) (i j : ℕ)
      → Came
          (if i == j then new_parent (proc_at t j).parent else (proc_at t j).parent)
          (proc_at t j)
          (proc_at (pass_child cur init i t) j)
  unfolding pass_child moved
  pass_child-Came t i j = ground (
    arith,
    in_range t i,
    proc_at-set t i j (moved t i),
    proc_at-wakeup1 (proc_chan init) (set t i (moved t i)) j,
    wake-Woken (proc_chan init) (proc_at (set t i (moved t i)) j),
  )

  pub pass_children-Came :
      (t : List Proc) (n i j : ℕ)
      → Came
          (if leb i j && ltb j (i + n)
            then new_parent (proc_at t j).parent
            else (proc_at t j).parent)
          (proc_at t j)
          (proc_at (pass_children cur init n i t) j)
  unfolding pass_children
  pass_children-Came t zero i j = ground arith
  pass_children-Came t (suc n) i j =
      ground
        (arith, pass_child-Came t i j, pass_children-Came (pass_child cur init i t) n (i + 1) j)

  length-pass_child : (t : List Proc) (i : ℕ) → length (pass_child cur init i t) ≡ length t
  unfolding pass_child
  length-pass_child t i = ground (
    arith,
    length-set t i (record (proc_at t i) { parent = some init }),
    length-wakeup1 (proc_chan init) (set t i (record (proc_at t i) { parent = some init })),
  )

  pub length-pass_children :
      (t : List Proc) (n i : ℕ) → length (pass_children cur init n i t) ≡ length t
  unfolding pass_children
  length-pass_children t zero i = refl
  length-pass_children t (suc n) i =
      length-pass_children (pass_child cur init i t) n (i + 1) ∙ length-pass_child t i

  -- Once `init` does not wait for a child, the loop does not make it wait.
  pass_children-NotWaiting :
      (t : List Proc) (n i : ℕ)
      → NotWaiting (proc_at t init)
      → NotWaiting (proc_at (pass_children cur init n i t) init)
  pass_children-NotWaiting t n i h e = ground (arith, pass_children-Came t n i init)

  pass_child-NotWaiting :
      (t : List Proc) (i : ℕ)
      → same_slot (proc_at t i).parent cur ≡ true
      → is_zombie (proc_at t i).state ≡ true
      → NotWaiting (proc_at (pass_child cur init i t) init)
  unfolding pass_child wake
  pass_child-NotWaiting t i own dead e = ground (
    arith,
    proc_at-wakeup1 (proc_chan init) (set t i (record (proc_at t i) { parent = some init })) init,
  )

  -- A zombie among the children is a wakeup of `init`.
  pub pass_children_wakes :
      (t : List Proc) (n i j : ℕ)
      → i ≤ j
      → j < i + n
      → same_slot (proc_at t j).parent cur ≡ true
      → is_zombie (proc_at t j).state ≡ true
      → NotWaiting (proc_at (pass_children cur init n i t) init)
  unfolding pass_children
  pass_children_wakes t zero i j lo hi own dead = absurd (omega arith)
  pass_children_wakes t (suc n) i j lo hi own dead = elim (Bool-cases (i == j)) [
    | inl e ↦
        let same : i ≡ j = (==_iff i j).0 e in
        pass_children-NotWaiting (pass_child cur init i t) n (i + 1)
          (pass_child-NotWaiting t i (rw same own) (rw same dead))
    | inr e ↦
        pass_children_wakes (pass_child cur init i t) n (i + 1) j (ground arith) (ground arith)
          (ground (arith, pass_child-Came t i j)) (ground (arith, pass_child-Came t i j))
  ]
