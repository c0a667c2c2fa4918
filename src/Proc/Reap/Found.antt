-- ===== src/Proc/Reap/Found.antt =====
-- What the scan of `wait` and `join` of Xv6-Threads/src/proc.c tells of the table.
use native.Mathlib.Nat.{add-zero}
use os_wsl.Prelude.{
  ◌∙◌, ap, ℕ, zero, suc, ◌+◌, ◌<◌, ◌≡◌, Bool, true, false, ◌&&◌, List, [], ◌∷◌, arith, length, ◌||◌,
  inl, inr, Bool-cases,
}
use os_wsl.Proc.{Proc, blank, proc_at, is_zombie}
use os_wsl.Proc.Reap.{zombie_at, kids, no_kids, scan_from}

module _ (mine : Proc → Bool) where
  -- It stops at the first zombie among the children.
  pub record IsFirstZombie (t : List Proc) (n : ℕ) : Type 0 where
    pub inside : n < length t
    pub own : mine (proc_at t n) ≡ true
    pub dead : is_zombie (proc_at t n).state ≡ true
    pub first : (m : ℕ) → m < n → mine (proc_at t m) && is_zombie (proc_at t m).state ≡ false

  first_later :
      (p : Proc) (t : List Proc) (n : ℕ)
      → mine p && is_zombie p.state ≡ false
      → IsFirstZombie t n
      → IsFirstZombie (p ∷ t) (suc n)
  first_later p t n h f = record {
    inside = omega (arith, f.inside);
    own = f.own;
    dead = f.dead;
    first = elim [ zero ↦ λ l. h | suc m ↦ λ l. f.first m (omega arith) ];
  }

  pub scan_from-zombie_at :
      (t : List Proc) (havekids : Bool) (i j : ℕ)
      → scan_from mine t havekids i ≡ zombie_at j
      → (n : ℕ) × (j ≡ i + n) × IsFirstZombie t n
  unfolding scan_from
  scan_from-zombie_at [] true i j h = cc
  scan_from-zombie_at [] false i j h = cc
  scan_from-zombie_at (p ∷ t) havekids i j h = elim (Bool-cases (mine p && is_zombie p.state)) [
    | inl e ↦ (
      0,
      ground arith,
      record {
        inside = omega arith;
        own = ground arith;
        dead = ground arith;
        first = λ m l. elim l [ ];
      },
    )
    | inr e ↦
        let (n, at, f) = scan_from-zombie_at t (havekids || mine p) (i + 1) j (rw e at h) in
        (suc n, omega arith, first_later p t n e f)
  ]

  pub scan_from-first :
      (t : List Proc) (havekids : Bool) (i n : ℕ)
      → IsFirstZombie t n
      → scan_from mine t havekids i ≡ zombie_at (i + n)
  unfolding scan_from
  scan_from-first [] havekids i n f = absurd (omega (arith, f.inside))
  scan_from-first (p ∷ t) havekids i zero f = rw (f.own, f.dead, add-zero)
  scan_from-first (p ∷ t) havekids i (suc n) f = rw (f.first 0 (omega arith)) (
      scan_from-first t (havekids || mine p) (i + 1) n (record {
        inside = omega (arith, f.inside);
        own = f.own;
        dead = f.dead;
        first = λ m l. f.first (suc m) (omega arith);
      })
      ∙ ap zombie_at (omega arith))

  -- It ends without a zombie only if no child is one.
  pub scan_from-kids :
      (t : List Proc) (havekids : Bool) (i n : ℕ)
      → mine blank ≡ false
      → scan_from mine t havekids i ≡ kids
      → mine (proc_at t n) && is_zombie (proc_at t n).state ≡ false
  unfolding scan_from
  scan_from-kids [] havekids i n b h = rw b
  scan_from-kids (p ∷ t) havekids i zero b h = ground arith
  scan_from-kids (p ∷ t) havekids i (suc n) b h =
      ground (arith, scan_from-kids t (havekids || mine p) (i + 1) n)

  -- It finds no children only if there are none.
  no_kids-havekids :
      (t : List Proc) (havekids : Bool) (i : ℕ)
      → scan_from mine t havekids i ≡ no_kids
      → havekids ≡ false
  unfolding scan_from
  no_kids-havekids [] havekids i h = ground arith
  no_kids-havekids (p ∷ t) havekids i h =
      ground (arith, no_kids-havekids t (havekids || mine p) (i + 1))

  pub scan_from-no_kids :
      (t : List Proc) (havekids : Bool) (i n : ℕ)
      → mine blank ≡ false
      → scan_from mine t havekids i ≡ no_kids
      → mine (proc_at t n) ≡ false
  unfolding scan_from
  scan_from-no_kids [] havekids i n b h = b
  scan_from-no_kids (p ∷ t) havekids i zero b h =
      ground (arith, no_kids-havekids t (havekids || mine p) (i + 1))
  scan_from-no_kids (p ∷ t) havekids i (suc n) b h =
      ground (arith, scan_from-no_kids t (havekids || mine p) (i + 1) n)
