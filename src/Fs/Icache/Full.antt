-- ===== src/Fs/Icache/Full.antt =====
-- When `iget` of Xv6-Threads/src/fs.c finds no room, and that `iput` behind it frees nothing.
use os_wsl.Prelude.{
  ℕ, ◌+◌, ◌<◌, ◌≡◌, ◌≢◌, refl, sym, ap, ◌∙◌, inl, inr, false, ◌&&◌, Option, none, some, List, [],
  ◌∷◌, arith, ◌==◌, if◌then◌else◌, Bool-cases, get_elem?,
}
use mathlib.Core.Path.{subst}
use os_wsl.Fs.{Superblock, Bytes}
use os_wsl.Fs.Inode.{itrunc}
use os_wsl.Fs.Icache.{
  Slot, Hit, cached_at, vacant, is_none, caches, iget_scan, counted_up, counted_down, reused, at,
  got, iget, freed_inode, unlinked, counts_down, iput,
}
use os_wsl.Fs.Icache.Counting.{refs, Finds, scan-Finds, refs-some, at_self}

-- Every entry of the cache is in use.
abbrev pub Full : List Slot → Type 0
Full [] = Unit
Full (s ∷ t) = (s.ref ≢ 0) × Full t

abbrev NoRoom : List Slot → Option ℕ → Hit → Type 0
NoRoom t empty (cached_at j) = Unit
NoRoom t empty (vacant (some j)) = Unit
NoRoom t empty (vacant none) = (empty ≡ none) × Full t

scan-NoRoom :
    (dev inum i : ℕ) (empty : Option ℕ) (t : List Slot)
    → NoRoom t empty (iget_scan dev inum i empty t)
unfolding iget_scan
scan-NoRoom dev inum i none [] = (refl, tt)
scan-NoRoom dev inum i (some j) [] = tt
scan-NoRoom dev inum i empty (s ∷ t) = elim (Bool-cases (caches dev inum s)) [
  | inl e ↦ rw e tt
  | inr e ↦ rw e (
      later empty
        (iget_scan dev inum (i + 1) (if is_none empty && s.ref == 0 then some i else empty) t)
        (scan-NoRoom dev inum (i + 1) (if is_none empty && s.ref == 0 then some i else empty) t))
]
  where
    later :
        (o : Option ℕ) (h : Hit)
        → NoRoom t (if is_none o && s.ref == 0 then some i else o) h
        → NoRoom (s ∷ t) o h
    later o (cached_at j) n = tt
    later o (vacant (some j)) n = tt
    later (some j) (vacant none) (e, f) = absurd (not_none e)
      where
        not_none : ¬ (some j ≡ none)
        not_none h = cc
    later none (vacant none) (e, f) = elim (Bool-cases (s.ref == 0)) [
      | inr ne ↦ (refl, (ground arith, f))
      | inl z ↦ let bad : some i ≡ none = rw z at e in absurd (not_none bad)
    ]
      where
        not_none : ¬ (some i ≡ none)
        not_none h = cc

-- `iget` panics only where every entry is in use.
pub iget-Full : (dev inum : ℕ) (t : List Slot) → iget dev inum t ≡ none → Full t
unfolding iget
iget-Full dev inum t = answer (iget_scan dev inum 0 none t) (scan-NoRoom dev inum 0 none t)
  where
    answer : (h : Hit) → NoRoom t none h → got dev inum t h ≡ none → Full t
    answer (cached_at j) n e = absurd (not_none e)
      where
        not_none : ¬ (got dev inum t (cached_at j) ≡ none)
        not_none h = cc
    answer (vacant (some j)) n e =
        let bad : got dev inum t (vacant (some j)) ≡ none = e in absurd (not_none bad)
      where
        not_none : ¬ (got dev inum t (vacant (some j)) ≡ none)
        not_none h = cc
    answer (vacant none) (same, full) e = full

-- The entry that `iget` gives has another reference, or has not been read from the disk.
abbrev Kept : Option (ℕ × List Slot) → Type 0
Kept none = Unit
Kept (some (i, t)) = (s : Slot) × ((get_elem? t i ≡ some s) × (unlinked s ≡ false))

iget-Kept : (dev inum : ℕ) (t : List Slot) → refs t + 1 < 4294967296 → Kept (iget dev inum t)
unfolding iget
iget-Kept dev inum t small = answer (iget_scan dev inum 0 none t) (scan-Finds dev inum 0 none t)
  where
    answer : (h : Hit) → Finds t 0 none h → Kept (got dev inum t h)
    answer (cached_at j) (k, (at_k, (s, (here, pos)))) =
        let same : k ≡ j = omega arith in
        let there : get_elem? t j ≡ some s = subst (λ n. get_elem? t n ≡ some s) same here in
        let le = refs-some j t s there in
        (counted_up s, (at_self counted_up j t s there, ground arith))
    answer (vacant none) f = tt
    answer (vacant (some j)) (inl e) = absurd (not_some e)
      where
        not_some : ¬ (none ≡ some j)
        not_some h = cc
    answer (vacant (some j)) (inr (k, s, (at_k, here, z))) =
        let same : k ≡ j = omega arith in
        let there : get_elem? t j ≡ some s = subst (λ n. get_elem? t n ≡ some s) same here in
        (reused dev inum s, (at_self (reused dev inum) j t s there, refl))

-- So `iput` of it only counts down.
pub iput-got :
    (sb : Superblock) (dev inum i : ℕ) (t t' : List Slot) (st : Bytes)
    → refs t + 1 < 4294967296
    → iget dev inum t ≡ some (i, t')
    → iput sb i t' st ≡ some (at counted_down i t', st)
unfolding iput
iput-got sb dev inum i t t' st small e =
    let (s, (here, linked)) = subst Kept e (iget-Kept dev inum t small) in
    opened s (get_elem? t' i) here linked
  where
    opened :
        (s : Slot) (o : Option Slot)
        → o ≡ some s
        → unlinked s ≡ false
        → elim o [
          | none ↦ none
          | some x ↦
              counts_down i
                (if unlinked x then freed_inode sb i t' (itrunc sb x.ino st) else some (t', st))
        ]
          ≡ some (at counted_down i t', st)
    opened s none h linked = absurd (not_some h)
      where
        not_some : ¬ (none ≡ some s)
        not_some f = cc
    opened s (some x) h linked =
        let same : s ≡ x = cc in
        let still : unlinked x ≡ false = ap unlinked (sym same) ∙ linked in rw still refl
