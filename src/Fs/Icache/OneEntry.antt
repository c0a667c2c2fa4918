-- ===== src/Fs/Icache/OneEntry.antt =====
-- The operations of the inode cache of Xv6-Threads/src/fs.c keep one entry for each inode.
use os_wsl.Prelude.{
  ℕ, zero, suc, ◌+◌, ◌*◌, ◌%◌, ◌≡◌, refl, sym, ap, ◌∙◌, inl, inr, Bool, true, false, Option, none,
  some, List, ltb, ◌==◌, int_lt, if◌then◌else◌, Bool-cases, get_elem?,
}
use os_wsl.Fs.{Superblock, Bytes, bfree, ndirect}
use os_wsl.Fs.Inode.{
  Inode, ilock, itrunc, with_addr, trunc_direct, trunc_indirect, free_table, emptied, get_half,
  get_word, iblock,
}
use os_wsl.Fs.Icache.{
  Slot, counted_up, counted_down, at, iget, idup, lock_at, freed_inode, unlinked, counts_down, iput,
}
use os_wsl.Fs.Icache.Counting.{InUse, kept-InUse}
use os_wsl.Fs.Icache.Unique.{OneEach, GetsEach, at-OneEach, in_use, iget-OneEach}

-- The same device and number.
abbrev SameNumbers : Inode → Inode → Type 0
SameNumbers ip ip' = (ip'.dev ≡ ip.dev) × (ip'.inum ≡ ip.inum)

abbrev LeavesNumbers : Inode → Option (Inode × Bytes) → Type 0
LeavesNumbers ip none = Unit
LeavesNumbers ip (some (ip', st)) = SameNumbers ip ip'

trunc_direct-LeavesNumbers :
    (sb : Superblock) (n i : ℕ) (ip : Inode) (st : Bytes)
    → LeavesNumbers ip (trunc_direct sb n i ip st)
unfolding trunc_direct
trunc_direct-LeavesNumbers sb zero i ip st = (refl, refl)
trunc_direct-LeavesNumbers sb (suc n) i ip st =
    either (ip.addrs i == 0) (bfree sb (ip.addrs i) st) (trunc_direct-LeavesNumbers sb n (i + 1))
  where
    either :
        (b : Bool) (o : Option Bytes)
        → ((jp : Inode) (st' : Bytes) → LeavesNumbers jp (trunc_direct sb n (i + 1) jp st'))
        → LeavesNumbers ip (
            if b then trunc_direct sb n (i + 1) ip st else elim o [
              | none ↦ none
              | some st' ↦ trunc_direct sb n (i + 1) (with_addr i 0 ip) st'
            ])
    either true o later = later ip st
    either false none later = tt
    either false (some st') later = later (with_addr i 0 ip) st'

trunc_indirect-LeavesNumbers :
    (sb : Superblock) (jp : Inode) (st' : Bytes) → LeavesNumbers jp (trunc_indirect sb jp st')
unfolding trunc_indirect
trunc_indirect-LeavesNumbers sb jp st' =
    either (jp.addrs ndirect == 0) (free_table sb (jp.addrs ndirect) st')
  where
    either :
        (b : Bool) (o : Option Bytes)
        → LeavesNumbers jp (
            if b
            then some (jp, st')
            else elim o [ none ↦ none | some st2 ↦ some (with_addr ndirect 0 jp, st2) ])
    either true o = (refl, refl)
    either false none = tt
    either false (some st2) = (refl, refl)

itrunc-LeavesNumbers :
    (sb : Superblock) (ip : Inode) (st : Bytes) → LeavesNumbers ip (itrunc sb ip st)
unfolding itrunc
itrunc-LeavesNumbers sb ip st =
    first (trunc_direct sb ndirect 0 ip st) (trunc_direct-LeavesNumbers sb ndirect 0 ip st)
  where
    second :
        (jp : Inode) (o : Option (Inode × Bytes))
        → SameNumbers ip jp
        → LeavesNumbers jp o
        → LeavesNumbers ip (elim o [ none ↦ none | some (ip2, st2) ↦ some (emptied sb ip2 st2) ])
    second jp none s l = tt
    second jp (some (ip2, st2)) (d, n) (d', n') = (d' ∙ d, n' ∙ n)

    first :
        (o : Option (Inode × Bytes))
        → LeavesNumbers ip o
        → LeavesNumbers ip (elim o [
          | none ↦ none
          | some (ip1, st1) ↦ elim (trunc_indirect sb ip1 st1) [
            | none ↦ none
            | some (ip2, st2) ↦ some (emptied sb ip2 st2)
          ]
        ])
    first none l = tt
    first (some (ip1, st1)) l =
        second ip1 (trunc_indirect sb ip1 st1) l (trunc_indirect-LeavesNumbers sb ip1 st1)

abbrev KeepsNumbers : Inode → Option Inode → Type 0
KeepsNumbers ip none = Unit
KeepsNumbers ip (some ip') = SameNumbers ip ip'

ilock-KeepsNumbers : (sb : Superblock) (ip : Inode) (st : Bytes) → KeepsNumbers ip (ilock sb ip st)
unfolding ilock
ilock-KeepsNumbers sb ip st =
    either ip.valid (get_half st (iblock sb ip.inum) (ip.inum % 8 * 64) == 0)
  where
    either :
        (b c : Bool)
        → KeepsNumbers ip (
            if b
            then some ip
            else (if c
                then none
                else some (record ip {
                  valid = Bool.true;
                  type = get_half st (iblock sb ip.inum) (ip.inum % 8 * 64);
                  major = get_half st (iblock sb ip.inum) (ip.inum % 8 * 64 + 2);
                  minor = get_half st (iblock sb ip.inum) (ip.inum % 8 * 64 + 4);
                  nlink = get_half st (iblock sb ip.inum) (ip.inum % 8 * 64 + 6);
                  size = get_word st (iblock sb ip.inum) (ip.inum % 8 * 16 + 2);
                  addrs = λ i.
                      if ltb i (ndirect + 1)
                      then get_word st (iblock sb ip.inum) (ip.inum % 8 * 16 + 3 + i)
                      else ip.addrs i;
                })))
    either true c = (refl, refl)
    either false true = tt
    either false false = (refl, refl)

-- One entry for each inode in the table of an answer, where there is one.
abbrev pub LocksEach : Option (List Slot) → Type 0
LocksEach none = Unit
LocksEach (some t) = OneEach t

abbrev pub PutsEach : Option (List Slot × Bytes) → Type 0
PutsEach none = Unit
PutsEach (some (t, st)) = OneEach t

idup-OneEach : (i : ℕ) (t : List Slot) → OneEach t → InUse t i → OneEach (idup i t)
unfolding idup
idup-OneEach i t each busy =
    at-OneEach counted_up i t each (λ s e. (refl, refl, λ p. in_use i t s busy e))

lock_at-LocksEach :
    (sb : Superblock) (i : ℕ) (t : List Slot) (st : Bytes)
    → OneEach t
    → LocksEach (lock_at sb i t st)
unfolding lock_at
lock_at-LocksEach sb i t st each = first (get_elem? t i) refl
  where
    second :
        (s : Slot) (o : Option Inode)
        → get_elem? t i ≡ some s
        → KeepsNumbers s.ino o
        → LocksEach
            (elim o [ none ↦ none | some ino ↦ some (at (λ x. record x { ino = ino }) i t) ])
    second s none e k = tt
    second s (some ino) e (d, n) =
        at-OneEach (λ x. record x { ino = ino }) i t each
          (λ x h.
            let both : some s ≡ some x = sym e ∙ h in
            let same : s ≡ x = cc in
            (d ∙ ap (λ y. y.ino.dev) same, n ∙ ap (λ y. y.ino.inum) same, λ p. p))

    first :
        (o : Option Slot)
        → get_elem? t i ≡ o
        → LocksEach (elim o [
          | none ↦ none
          | some s ↦ if int_lt s.ref 1 then none else elim (ilock sb s.ino st) [
            | none ↦ none
            | some ino ↦ some (at (λ x. record x { ino = ino }) i t)
          ]
        ])
    first none e = tt
    first (some s) e = elim (Bool-cases (int_lt s.ref 1)) [
      | inl z ↦ rw z tt
      | inr z ↦ rw z (second s (ilock sb s.ino st) e (ilock-KeepsNumbers sb s.ino st))
    ]

down-OneEach : (i : ℕ) (t : List Slot) → OneEach t → InUse t i → OneEach (at counted_down i t)
down-OneEach i t each busy =
    at-OneEach counted_down i t each (λ s e. (refl, refl, λ p. in_use i t s busy e))

iput-PutsEach :
    (sb : Superblock) (i : ℕ) (t : List Slot) (st : Bytes)
    → OneEach t
    → InUse t i
    → PutsEach (iput sb i t st)
unfolding iput
iput-PutsEach sb i t st each busy = opened (get_elem? t i) refl
  where
    freed :
        (s : Slot) (o : Option (Inode × Bytes))
        → get_elem? t i ≡ some s
        → LeavesNumbers s.ino o
        → PutsEach (counts_down i (freed_inode sb i t o))
    freed s none e l = tt
    freed s (some (ino, st')) e (d, n) =
        let clear = λ (x : Slot). record x { ino = record ino { type = 0; valid = false } } in
        let still : OneEach (at clear i t) = at-OneEach clear i t each (λ x h.
          let both : some s ≡ some x = sym e ∙ h in
          let same : s ≡ x = cc in
          (d ∙ ap (λ y. y.ino.dev) same, n ∙ ap (λ y. y.ino.inum) same, λ p. p)) in
        down-OneEach i (at clear i t) still (kept-InUse clear i i t (λ x. refl) busy)

    either :
        (s : Slot) (b : Bool)
        → get_elem? t i ≡ some s
        → PutsEach
            (counts_down i (if b then freed_inode sb i t (itrunc sb s.ino st) else some (t, st)))
    either s true e = freed s (itrunc sb s.ino st) e (itrunc-LeavesNumbers sb s.ino st)
    either s false e = down-OneEach i t each busy

    opened :
        (o : Option Slot)
        → get_elem? t i ≡ o
        → PutsEach (elim o [
          | none ↦ none
          | some x ↦
              counts_down i
                (if unlinked x then freed_inode sb i t (itrunc sb x.ino st) else some (t, st))
        ])
    opened none e = tt
    opened (some x) e = either x (unlinked x) e

-- Where the cache has one entry in use at most for each device and number, it has after `iget` of any
-- inode, and after `idup`, the locking and `iput` of an entry that is in use.
pub one_entry :
    (sb : Superblock) (dev inum i : ℕ) (t : List Slot) (st : Bytes)
    → OneEach t
    → InUse t i
    → GetsEach (iget dev inum t)
      × OneEach (idup i t)
      × LocksEach (lock_at sb i t st)
      × PutsEach (iput sb i t st)
one_entry sb dev inum i t st each busy = (
  iget-OneEach dev inum t each,
  idup-OneEach i t each busy,
  lock_at-LocksEach sb i t st each,
  iput-PutsEach sb i t st each busy,
)
