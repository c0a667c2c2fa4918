-- ===== src/Fs/Icache/Unique.antt =====
-- The inode cache of Xv6-Threads/src/fs.c holds an inode once.
use mathlib.Core.Path.{subst}
use os_wsl.Prelude.{
  ℕ, zero, suc, ◌+◌, ◌<◌, ◌≤◌, ◌≡◌, refl, sym, ap, ◌∙◌, inl, inr, Bool, true, false, ◌&&◌, Option,
  none, some, List, [], ◌∷◌, arith, ◌==◌, if◌then◌else◌, Bool-cases, get_elem?,
}
use os_wsl.Fs.Icache.{
  Slot, Hit, cached_at, vacant, is_none, caches, iget_scan, counted_up, reused, at, got, iget,
}
use os_wsl.Fs.Icache.Counting.{InUse, Finds, scan-Finds}

abbrev one : Bool → ℕ
one true = 1
one false = 0

-- The entries that are in use for an inode.
abbrev pub count : ℕ → ℕ → List Slot → ℕ
count dev inum [] = 0
count dev inum (s ∷ t) = one (caches dev inum s) + count dev inum t

abbrev pub OneEach : List Slot → Type 0
OneEach t = (dev inum : ℕ) → count dev inum t ≤ 1

-- A change by which no entry becomes one of the inode.
count-at :
    (d n : ℕ) (f : Slot → Slot) (i : ℕ) (t : List Slot)
    → ((s : Slot) → get_elem? t i ≡ some s → one (caches d n (f s)) ≤ one (caches d n s))
    → count d n (at f i t) ≤ count d n t
count-at d n f i [] less = omega arith
count-at d n f zero (s ∷ t) less = omega (arith, less s refl)
count-at d n f (suc i) (s ∷ t) less = omega (arith, count-at d n f i t less)

one_le : (b : Bool) → one b ≤ 1
one_le true = omega arith
one_le false = omega arith

-- A change of one entry adds one at most.
count-at_more :
    (d n : ℕ) (f : Slot → Slot) (i : ℕ) (t : List Slot) → count d n (at f i t) ≤ count d n t + 1
count-at_more d n f i [] = omega arith
count-at_more d n f zero (s ∷ t) = omega (arith, one_le (caches d n (f s)))
count-at_more d n f (suc i) (s ∷ t) = omega (arith, count-at_more d n f i t)

abbrev Misses : ℕ → ℕ → List Slot → Hit → Type 0
Misses dev inum t (cached_at j) = Unit
Misses dev inum t (vacant e) = count dev inum t ≡ 0

scan-Misses :
    (dev inum i : ℕ) (empty : Option ℕ) (t : List Slot)
    → Misses dev inum t (iget_scan dev inum i empty t)
unfolding iget_scan
scan-Misses dev inum i empty [] = refl
scan-Misses dev inum i empty (s ∷ t) = elim (Bool-cases (caches dev inum s)) [
  | inl e ↦ rw e tt
  | inr e ↦ rw e (
      later (iget_scan dev inum (i + 1) (if is_none empty && s.ref == 0 then some i else empty) t) e
        (scan-Misses dev inum (i + 1) (if is_none empty && s.ref == 0 then some i else empty) t))
]
  where
    later : (h : Hit) → caches dev inum s ≡ false → Misses dev inum t h → Misses dev inum (s ∷ t) h
    later (cached_at j) e m = tt
    later (vacant o) e m =
        let none_there : count dev inum t ≡ 0 = m in omega (arith, none_there, ap one e)

-- The numbers of an entry, if it is in use, are those of the entry before.
abbrev pub Named : Slot → Slot → Type 0
Named s s' = (s'.ino.dev ≡ s.ino.dev) × (s'.ino.inum ≡ s.ino.inum) × ((0 < s'.ref) → 0 < s.ref)

Named-one : (d n : ℕ) (s s' : Slot) → Named s s' → one (caches d n s') ≤ one (caches d n s)
Named-one d n s s' (e, f, g) = elim (Bool-cases (caches d n s')) [
  | inr out ↦ rw out (omega arith)
  | inl hit ↦
      let pos : 0 < s.ref = g (ground arith) in
      let same : caches d n s ≡ true = ground arith in rw hit (rw same (omega arith))
]

pub at-OneEach :
    (f : Slot → Slot) (i : ℕ) (t : List Slot)
    → OneEach t
    → ((s : Slot) → get_elem? t i ≡ some s → Named s (f s))
    → OneEach (at f i t)
at-OneEach f i t each same d n =
    omega (arith, each d n, count-at d n f i t (λ s e. Named-one d n s (f s) (same s e)))

-- The entry of `i` is in use.
pub in_use : (i : ℕ) (t : List Slot) (s : Slot) → InUse t i → get_elem? t i ≡ some s → 0 < s.ref
in_use i t s (x, (here, pos)) e =
    let both : some x ≡ some s = sym here ∙ e in
    let same : x ≡ s = cc in omega (arith, ap Slot.ref same)

reused-OneEach :
    (dev inum j : ℕ) (t : List Slot)
    → OneEach t
    → count dev inum t ≡ 0
    → OneEach (at (reused dev inum) j t)
reused-OneEach dev inum j t each zero_count d n = elim (Bool-cases (dev == d && inum == n)) [
  | inl e ↦
      let same_d : dev ≡ d = ground arith in
      let same_n : inum ≡ n = ground arith in
      subst (λ k. count k n (at (reused dev inum) j t) ≤ 1) same_d
        (subst (λ k. count dev k (at (reused dev inum) j t) ≤ 1) same_n
          (omega (arith, zero_count, count-at_more dev inum (reused dev inum) j t)))
  | inr e ↦
      let other = λ (s : Slot) (h : get_elem? t j ≡ some s). less s e in
      omega (arith, each d n, count-at d n (reused dev inum) j t other)
]
  where
    less :
        (s : Slot)
        → (dev == d && inum == n) ≡ false
        → one (caches d n (reused dev inum s)) ≤ one (caches d n s)
    less s e = rw e (omega arith)

abbrev pub GetsEach : Option (ℕ × List Slot) → Type 0
GetsEach none = Unit
GetsEach (some (j, t)) = OneEach t

pub iget-OneEach : (dev inum : ℕ) (t : List Slot) → OneEach t → GetsEach (iget dev inum t)
unfolding iget
iget-OneEach dev inum t each =
    answer (iget_scan dev inum 0 none t) (scan-Finds dev inum 0 none t)
      (scan-Misses dev inum 0 none t)
  where
    answer : (h : Hit) → Finds t 0 none h → Misses dev inum t h → GetsEach (got dev inum t h)
    answer (cached_at j) (k, (at, busy)) m =
        let same : k ≡ j = omega arith in
        at-OneEach counted_up j t each
          (λ s e. (refl, refl, λ p. in_use j t s (subst (InUse t) same busy) e))
    answer (vacant none) f m = tt
    answer (vacant (some j)) f m = reused-OneEach dev inum j t each m
