-- ===== src/Bio/Cache.antt =====
-- The buffer cache of Xv6-Threads/src/bio.c over any sequence of reads and releases.
use mathlib.Core.Path.{subst}
use os_wsl.Prelude.{
  ℕ, zero, suc, ◌+◌, ◌≤◌, ◌≡◌, refl, ◌∙◌, inl, inr, Option, none, some, List, [], ◌∷◌, arith, ◌==◌,
  Bool-cases,
}
use os_wsl.Bio.{
  Buf, Devices, binit_from, binit, fill, holds, bget, bread, at_place, without, buf_at, dropped,
  release_buf, brelse,
}
use os_wsl.Bio.Unique.{count, Unique, Given, bget-Given}

-- A change that leaves the block of each buffer alone leaves the counts alone.
at_place-count :
    (d m i : ℕ) (f : Buf → Buf) (l : List Buf)
    → ((b : Buf) → holds d m (f b) ≡ holds d m b)
    → count d m (at_place f i l) ≡ count d m l
at_place-count d m i f [] h = refl
at_place-count d m i f (b ∷ l) h = elim (Bool-cases (b.place == i)) [
  | inl e ↦ rw e (rw (h b))
  | inr e ↦ rw e (omega (arith, at_place-count d m i f l h))
]

fill-holds : (disk : Devices) (d m : ℕ) (b : Buf) → holds d m (fill disk b) ≡ holds d m b
fill-holds disk d m b = elim (Bool-cases b.valid) [ inl e ↦ rw e | inr e ↦ rw e ]

without-count :
    (d m i : ℕ) (l : List Buf) (b : Buf)
    → buf_at i l ≡ some b
    → count d m (b ∷ without i l) ≡ count d m l
without-count d m i [] b h = cc
without-count d m i (c ∷ l) b h = elim (Bool-cases (c.place == i)) [
  | inl e ↦ let found : some c ≡ some b = rw e at h in let this : c ≡ b = cc in rw e (rw this)
  | inr e ↦
      let found : buf_at i l ≡ some b = rw e at h in
      rw e (omega (arith, without-count d m i l b found))
]

release-count :
    (d m i : ℕ) (l : List Buf) (o : Option Buf)
    → buf_at i l ≡ o
    → count d m (release_buf i o l) ≡ count d m l
unfolding release_buf
release-count d m i l none h = refl
release-count d m i l (some b) h = elim (Bool-cases ((dropped b).refcnt == 0)) [
  | inl e ↦ rw e (without-count d m i l b h)
  | inr e ↦ rw e (at_place-count d m i dropped l (λ c. refl))
]

pub brelse-count : (d m i : ℕ) (l : List Buf) → count d m (brelse i l) ≡ count d m l
unfolding brelse
brelse-count d m i l = release-count d m i l (buf_at i l) refl

binit_from-count :
    (n i d m : ℕ) (l : List Buf) → count (suc d) m (binit_from n i l) ≡ count (suc d) m l
unfolding binit_from
binit_from-count zero i d m l = refl
binit_from-count (suc n) i d m l = binit_from-count n (i + 1) d m _ ∙ ground arith

-- The cache after any calls of bread, for a device other than 0, and of brelse.
pub data Reach : List Buf → Type 0 where
  boots : Reach binit
  reads :
      {l l' : List Buf} (disk : Devices) (dev n i : ℕ)
      → Reach l
      → bread disk (suc dev) n l ≡ some (i, l')
      → Reach l'
  releases : {l : List Buf} (i : ℕ) → Reach l → Reach (brelse i l)

abbrev Read : ℕ → ℕ → Option (ℕ × List Buf) → Type 0
Read dev n none = Unit
Read dev n (some (i, l)) = Unique l × (count dev n l ≡ 1)

read :
    (disk : Devices) (dev n : ℕ) (o : Option (ℕ × List Buf))
    → Given (suc dev) n o
    → Read (suc dev) n (elim o [ none ↦ none | some (i, l') ↦ some (i, at_place (fill disk) i l') ])
read disk dev n none g = tt
read disk dev n (some (i, l)) g = (
  λ d m.
      omega (arith, at_place-count (suc d) m i (fill disk) l (fill-holds disk (suc d) m), g.0 d m),
  at_place-count (suc dev) n i (fill disk) l (fill-holds disk (suc dev) n) ∙ g.1,
)

bread-Read :
    (disk : Devices) (dev n : ℕ) (l : List Buf)
    → Unique l
    → Read (suc dev) n (bread disk (suc dev) n l)
unfolding bread
bread-Read disk dev n l u = read disk dev n (bget (suc dev) n l) (bget-Given dev n l u)

Reach-Unique : {l : List Buf} → Reach l → Unique l
unfolding binit
Reach-Unique boots d m = omega (arith, binit_from-count 30 0 d m [])
Reach-Unique (reads {l} disk dev n i r e) d m =
    (subst (Read (suc dev) n) e (bread-Read disk dev n l (Reach-Unique r))).0 d m
Reach-Unique (releases {l} i r) d m = omega (arith, brelse-count (suc d) m i l, Reach-Unique r d m)

-- From the boot on, whatever blocks are read and released, no block has two buffers, and a block that
-- has just been read has one. (For devices other than 0, the number that unused buffers carry.)
pub one_buffer :
    {l l' : List Buf} (disk : Devices) (dev n i d m : ℕ)
    → Reach l
    → bread disk (suc dev) n l ≡ some (i, l')
    → (count (suc d) m l' ≤ 1) × (count (suc dev) n l' ≡ 1)
one_buffer {l} disk dev n i d m r e =
    let g = subst (Read (suc dev) n) e (bread-Read disk dev n l (Reach-Unique r)) in (g.0 d m, g.1)
