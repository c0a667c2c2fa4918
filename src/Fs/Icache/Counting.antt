-- ===== src/Fs/Icache/Counting.antt =====
-- The reference counts of the inode cache of Xv6-Threads/src/fs.c.
use mathlib.Core.Path.{subst}
use os_wsl.Prelude.{
  ℕ, zero, suc, ◌+◌, ◌<◌, ◌≤◌, ◌≡◌, ◌≢◌, ◌⊎◌, refl, sym, ap, ◌∙◌, inl, inr, Bool, true, false, ◌&&◌,
  Option, none, some, List, [], ◌∷◌, arith, ◌==◌, int_lt, if◌then◌else◌, Bool-cases, get_elem?,
  ==_iff,
}
use os_wsl.Fs.{Superblock, Bytes}
use os_wsl.Fs.Inode.{Inode, ilock, itrunc}
use os_wsl.Fs.Icache.{
  Slot, Hit, cached_at, vacant, is_none, caches, iget_scan, counted_up, counted_down, reused, at,
  got, iget, idup, lock_at, freed_inode, unlinked, counts_down, iput,
}

-- All references to cached inodes.
abbrev pub refs : List Slot → ℕ
refs [] = 0
refs (s ∷ t) = s.ref + refs t

-- The entry at place `i` is in use.
abbrev pub InUse : List Slot → ℕ → Type 0
InUse t i = (s : Slot) × ((get_elem? t i ≡ some s) × (0 < s.ref))

refs-at :
    (f : Slot → Slot) (i : ℕ) (t : List Slot) (s : Slot)
    → get_elem? t i ≡ some s
    → refs (at f i t) + s.ref ≡ refs t + (f s).ref
refs-at f i [] s h = absurd (not_some h)
  where
    not_some : ¬ (none ≡ some s)
    not_some e = cc
refs-at f zero (x ∷ t) s h =
    let same : x ≡ s = cc in omega (arith, ap Slot.ref same, ap (λ y. (f y).ref) same)
refs-at f (suc i) (x ∷ t) s h = omega (arith, refs-at f i t s h)

pub refs-some : (i : ℕ) (t : List Slot) (s : Slot) → get_elem? t i ≡ some s → s.ref ≤ refs t
refs-some i [] s h = absurd (not_some h)
  where
    not_some : ¬ (none ≡ some s)
    not_some e = cc
refs-some zero (x ∷ t) s h = let same : x ≡ s = cc in omega (arith, ap Slot.ref same)
refs-some (suc i) (x ∷ t) s h = omega (arith, refs-some i t s h)

pub at_self :
    (f : Slot → Slot) (i : ℕ) (t : List Slot) (s : Slot)
    → get_elem? t i ≡ some s
    → get_elem? (at f i t) i ≡ some (f s)
at_self f i [] s h = absurd (not_some h)
  where
    not_some : ¬ (none ≡ some s)
    not_some e = cc
at_self f zero (x ∷ t) s h = let same : x ≡ s = cc in ap (λ y. some (f y)) same
at_self f (suc i) (x ∷ t) s h = at_self f i t s h

at-ne : (f : Slot → Slot) (i j : ℕ) (t : List Slot) → i ≢ j → get_elem? (at f i t) j ≡ get_elem? t j
at-ne f i j [] ne = refl
at-ne f zero zero (x ∷ t) ne = absurd (omega arith)
at-ne f zero (suc j) (x ∷ t) ne = refl
at-ne f (suc i) zero (x ∷ t) ne = refl
at-ne f (suc i) (suc j) (x ∷ t) ne = at-ne f i j t (λ e. ne (ap suc e))

-- A change that keeps counts above 0 above 0 keeps entries in use.
at-InUse :
    (f : Slot → Slot) (i j : ℕ) (t : List Slot)
    → ((s : Slot) → get_elem? t i ≡ some s → 0 < s.ref → 0 < (f s).ref)
    → InUse t j
    → InUse (at f i t) j
at-InUse f i j t keeps (s, (here, pos)) = elim (Bool-cases (i == j)) [
  | inl e ↦
      let same : i ≡ j = (==_iff i j).0 e in
      let there : get_elem? t i ≡ some s = ap (get_elem? t) same ∙ here in
      (f s, (ap (get_elem? (at f i t)) (sym same) ∙ at_self f i t s there, keeps s there pos))
  | inr e ↦ (s, (at-ne f i j t (ground arith) ∙ here, pos))
]

-- What the loop of iget finds.
abbrev pub Finds : List Slot → ℕ → Option ℕ → Hit → Type 0
Finds t i empty (cached_at j) = (k : ℕ) × ((j ≡ i + k) × InUse t k)
Finds t i empty (vacant none) = Unit
Finds t i empty (vacant (some j)) =
    (empty ≡ some j)
    ⊎ ((k : ℕ) × (s : Slot) × ((j ≡ i + k) × (get_elem? t k ≡ some s) × (s.ref ≡ 0)))

pub scan-Finds :
    (dev inum i : ℕ) (empty : Option ℕ) (t : List Slot)
    → Finds t i empty (iget_scan dev inum i empty t)
unfolding iget_scan
scan-Finds dev inum i none [] = tt
scan-Finds dev inum i (some j) [] = inl refl
scan-Finds dev inum i empty (s ∷ t) = elim (Bool-cases (caches dev inum s)) [
  | inl e ↦ rw e (0, (omega arith, (s, (refl, ground arith))))
  | inr e ↦ rw e (
      later empty (Bool-cases (is_none empty && s.ref == 0))
        (iget_scan dev inum (i + 1) (if is_none empty && s.ref == 0 then some i else empty) t)
        (scan-Finds dev inum (i + 1) (if is_none empty && s.ref == 0 then some i else empty) t))
]
  where
    on :
        (o p : Option ℕ) (h : Hit)
        → (o ≡ p) ⊎ ((s.ref ≡ 0) × (o ≡ some i))
        → Finds t (i + 1) o h
        → Finds (s ∷ t) i p h
    on o p (cached_at j) c (k, (at, busy)) = (suc k, (omega arith, busy))
    on o p (vacant none) c f = tt
    on o p (vacant (some j)) c (inr (k, s', (at, here, z))) =
        inr (suc k, s', (omega arith, here, z))
    on o p (vacant (some j)) (inl same) (inl e) = inl (sym same ∙ e)
    on o p (vacant (some j)) (inr (z, new)) (inl e) =
        let this : some i ≡ some j = sym new ∙ e in
        let place : i ≡ j = cc in inr (0, s, (omega arith, refl, z))

    later :
        (empty : Option ℕ)
        → ((is_none empty && s.ref == 0) ≡ true) ⊎ ((is_none empty && s.ref == 0) ≡ false)
        → (h : Hit) → Finds t (i + 1) (if is_none empty && s.ref == 0 then some i else empty) h
        → Finds (s ∷ t) i empty h
    later empty (inl e) h f =
        on (if is_none empty && s.ref == 0 then some i else empty) empty h
          (inr (ground arith, rw e refl)) f
    later empty (inr e) h f =
        on (if is_none empty && s.ref == 0 then some i else empty) empty h (inl (rw e refl)) f

-- The entry at place `i` has two references at least.
abbrev pub Twice : List Slot → ℕ → Type 0
Twice t i = (s : Slot) × ((get_elem? t i ≡ some s) × (1 < s.ref))

-- What `iget` does to the counts.
abbrev pub Gotten : List Slot → Option (ℕ × List Slot) → Type 0
Gotten t none = Unit
Gotten t (some (j, t')) =
    (refs t' ≡ refs t + 1)
    × InUse t' j
    × ((i : ℕ) → InUse t i → InUse t' i)
    × (InUse t j → Twice t' j)

up-Gotten :
    (t : List Slot) (j : ℕ)
    → InUse t j
    → refs t + 1 < 4294967296
    → Gotten t (some (j, at counted_up j t))
up-Gotten t j (s, (here, pos)) small =
    let le = refs-some j t s here in
    let next : (counted_up s).ref ≡ s.ref + 1 = omega arith in
    (
      omega (arith, refs-at counted_up j t s here),
      (counted_up s, (at_self counted_up j t s here, omega arith)),
      λ i busy. at-InUse counted_up j i t (λ x h p. omega (arith, refs-some j t x h)) busy,
      λ busy. (counted_up s, (at_self counted_up j t s here, omega arith)),
    )

new-Gotten :
    (dev inum j : ℕ) (t : List Slot) (s : Slot)
    → get_elem? t j ≡ some s
    → s.ref ≡ 0
    → Gotten t (some (j, at (reused dev inum) j t))
new-Gotten dev inum j t s here z = (
  omega (arith, refs-at (reused dev inum) j t s here),
  (reused dev inum s, (at_self (reused dev inum) j t s here, omega arith)),
  λ i busy. at-InUse (reused dev inum) j i t (λ x h p. omega arith) busy,
  λ busy. absurd (unused busy),
)
  where
    unused : ¬ InUse t j
    unused (x, (there, pos)) =
        let both : some s ≡ some x = sym here ∙ there in
        let same : s ≡ x = cc in absurd (omega (arith, ap Slot.ref same))

pub iget-Gotten :
    (dev inum : ℕ) (t : List Slot) → refs t + 1 < 4294967296 → Gotten t (iget dev inum t)
unfolding iget
iget-Gotten dev inum t small = answer (iget_scan dev inum 0 none t) (scan-Finds dev inum 0 none t)
  where
    answer : (h : Hit) → Finds t 0 none h → Gotten t (got dev inum t h)
    answer (cached_at j) (k, (at, busy)) =
        let same : k ≡ j = omega arith in up-Gotten t j (subst (InUse t) same busy) small
    answer (vacant none) f = tt
    answer (vacant (some j)) (inl e) = absurd (not_some e)
      where
        not_some : ¬ (none ≡ some j)
        not_some e = cc
    answer (vacant (some j)) (inr (k, s, (at, here, z))) =
        let same : k ≡ j = omega arith in
        new-Gotten dev inum j t s (subst (λ n. get_elem? t n ≡ some s) same here) z

pub idup-Gotten :
    (i : ℕ) (t : List Slot) → InUse t i → refs t + 1 < 4294967296 → Gotten t (some (i, idup i t))
unfolding idup
idup-Gotten i t busy small = up-Gotten t i busy small

-- A change that keeps every count.
pub kept-refs :
    (f : Slot → Slot) (i : ℕ) (t : List Slot)
    → ((s : Slot) → (f s).ref ≡ s.ref)
    → refs (at f i t) ≡ refs t
kept-refs f i [] h = refl
kept-refs f zero (s ∷ t) h = omega (arith, h s)
kept-refs f (suc i) (s ∷ t) h = omega (arith, kept-refs f i t h)

pub kept-InUse :
    (f : Slot → Slot) (i j : ℕ) (t : List Slot)
    → ((s : Slot) → (f s).ref ≡ s.ref)
    → InUse t j
    → InUse (at f i t) j
kept-InUse f i j t h busy = at-InUse f i j t (λ s e p. omega (arith, h s)) busy

-- `ilock` reads the inode and leaves the counts.
abbrev pub Locked : List Slot → Option (List Slot) → Type 0
Locked t none = Unit
Locked t (some t') = (refs t' ≡ refs t) × ((i : ℕ) → InUse t i → InUse t' i)

pub lock_at-Locked :
    (sb : Superblock) (i : ℕ) (t : List Slot) (st : Bytes) → Locked t (lock_at sb i t st)
unfolding lock_at
lock_at-Locked sb i t st = first (get_elem? t i)
  where
    copied : (ino : Inode) → Slot → Slot
    copied ino s = record s { ino = ino }

    second :
        (o : Option Inode)
        → Locked t (elim o [ none ↦ none | some ino ↦ some (at (λ s. record s { ino = ino }) i t) ])
    second none = tt
    second (some ino) = (
      kept-refs (copied ino) i t (λ s. refl),
      λ j busy. kept-InUse (copied ino) i j t (λ s. refl) busy,
    )

    first :
        (o : Option Slot)
        → Locked t (elim o [
          | none ↦ none
          | some s ↦ if int_lt s.ref 1 then none else elim (ilock sb s.ino st) [
            | none ↦ none
            | some ino ↦ some (at (λ s. record s { ino = ino }) i t)
          ]
        ])
    first none = tt
    first (some s) = elim (Bool-cases (int_lt s.ref 1)) [
      | inl e ↦ rw e tt
      | inr e ↦ rw e (second (ilock sb s.ino st))
    ]

-- `iput` gives one reference back.
abbrev pub GivenBack : List Slot → Option (List Slot × Bytes) → Type 0
GivenBack t none = Unit
GivenBack t (some (t', st')) = refs t' + 1 ≡ refs t

down-GivenBack :
    (i : ℕ) (t : List Slot) (st : Bytes)
    → InUse t i
    → refs t < 4294967296
    → refs (at counted_down i t) + 1 ≡ refs t
down-GivenBack i t st (s, (here, pos)) small =
    let le = refs-some i t s here in
    let less : (counted_down s).ref + 1 ≡ s.ref = omega arith in
    omega (arith, refs-at counted_down i t s here)

freed-refs :
    (sb : Superblock) (i : ℕ) (t : List Slot) (o : Option (Inode × Bytes))
    → InUse t i
    → refs t < 4294967296
    → GivenBack t (counts_down i (freed_inode sb i t o))
freed-refs sb i t none busy small = tt
freed-refs sb i t (some (ino, st)) busy small =
    let clear = λ (s : Slot). record s { ino = record ino { type = 0; valid = false } } in
    let kept : refs (at clear i t) ≡ refs t = kept-refs clear i t (λ s. refl) in
    down-GivenBack i (at clear i t) st (kept-InUse clear i i t (λ s. refl) busy) (omega arith)
    ∙ kept

pub iput-GivenBack :
    (sb : Superblock) (i : ℕ) (t : List Slot) (st : Bytes)
    → InUse t i
    → refs t < 4294967296
    → GivenBack t (iput sb i t st)
unfolding iput
iput-GivenBack sb i t st (s, (here, pos)) small = opened (get_elem? t i) here
  where
    either :
        (b : Bool)
        → GivenBack t
            (counts_down i (if b then freed_inode sb i t (itrunc sb s.ino st) else some (t, st)))
    either true = freed-refs sb i t (itrunc sb s.ino st) (s, (here, pos)) small
    either false = down-GivenBack i t st (s, (here, pos)) small

    opened :
        (o : Option Slot)
        → o ≡ some s
        → GivenBack t (elim o [
          | none ↦ none
          | some x ↦
              counts_down i
                (if unlinked x then freed_inode sb i t (itrunc sb x.ino st) else some (t, st))
        ])
    opened none e = absurd (not_some e)
      where
        not_some : ¬ (none ≡ some s)
        not_some f = cc
    opened (some x) e =
        let same : s ≡ x = cc in
        subst
          (λ y. GivenBack t (
            counts_down i
              (if unlinked y then freed_inode sb i t (itrunc sb y.ino st) else some (t, st))))
          same (either (unlinked s))

-- Another entry, or one with two references, is still in use behind `iput`.
down-InUse :
    (i j : ℕ) (t : List Slot)
    → refs t < 4294967296
    → InUse t j
    → ((i ≡ j) → Twice t j)
    → InUse (at counted_down i t) j
down-InUse i j t small (s, (here, pos)) twice = elim (Bool-cases (i == j)) [
  | inr e ↦ (s, (at-ne counted_down i j t (ground arith) ∙ here, pos))
  | inl e ↦
      let same : i ≡ j = (==_iff i j).0 e in
      let (x, (there, two)) = twice same in
      let at_i : get_elem? t i ≡ some x = ap (get_elem? t) same ∙ there in
      let le = refs-some i t x at_i in
      (
        counted_down x,
        (
          ap (get_elem? (at counted_down i t)) (sym same) ∙ at_self counted_down i t x at_i,
          omega arith,
        ),
      )
]

pub kept-Twice :
    (f : Slot → Slot) (i j : ℕ) (t : List Slot)
    → ((s : Slot) → (f s).ref ≡ s.ref)
    → Twice t j
    → Twice (at f i t) j
kept-Twice f i j t h (s, (here, two)) = elim (Bool-cases (i == j)) [
  | inr e ↦ (s, (at-ne f i j t (ground arith) ∙ here, two))
  | inl e ↦
      let same : i ≡ j = (==_iff i j).0 e in
      let at_i : get_elem? t i ≡ some s = ap (get_elem? t) same ∙ here in
      (f s, (ap (get_elem? (at f i t)) (sym same) ∙ at_self f i t s at_i, omega (arith, h s)))
]

abbrev pub StillInUse : ℕ → Option (List Slot × Bytes) → Type 0
StillInUse j none = Unit
StillInUse j (some (t, st)) = InUse t j

pub iput-StillInUse :
    (sb : Superblock) (i j : ℕ) (t : List Slot) (st : Bytes)
    → refs t < 4294967296
    → InUse t j
    → ((i ≡ j) → Twice t j)
    → StillInUse j (iput sb i t st)
unfolding iput
iput-StillInUse sb i j t st small busy twice = opened (get_elem? t i)
  where
    freed : (o : Option (Inode × Bytes)) → StillInUse j (counts_down i (freed_inode sb i t o))
    freed none = tt
    freed (some (ino, st')) =
        let clear = λ (s : Slot). record s { ino = record ino { type = 0; valid = false } } in
        let kept : refs (at clear i t) ≡ refs t = kept-refs clear i t (λ s. refl) in
        down-InUse i j (at clear i t) (omega arith) (kept-InUse clear i j t (λ s. refl) busy)
          (λ e. kept-Twice clear i j t (λ s. refl) (twice e))

    either :
        (x : Slot) (b : Bool)
        → StillInUse j
            (counts_down i (if b then freed_inode sb i t (itrunc sb x.ino st) else some (t, st)))
    either x true = freed (itrunc sb x.ino st)
    either x false = down-InUse i j t small busy twice

    opened :
        (o : Option Slot)
        → StillInUse j (elim o [
          | none ↦ none
          | some x ↦
              counts_down i
                (if unlinked x then freed_inode sb i t (itrunc sb x.ino st) else some (t, st))
        ])
    opened none = tt
    opened (some x) = either x (unlinked x)
