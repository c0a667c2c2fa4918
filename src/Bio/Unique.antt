-- ===== src/Bio/Unique.antt =====
-- No block has two buffers in the cache of Xv6-Threads/src/bio.c.
use os_wsl.Prelude.{
  ℕ, suc, ◌+◌, ◌≤◌, ◌<◌, ◌≡◌, refl, inl, inr, Bool, ◌&&◌, Option, none, some, List, [], ◌∷◌, arith,
  ◌==◌, if◌then◌else◌, Bool-cases,
}
use os_wsl.Bio.{Buf, holds, behind, cached, or_else, unused_buf, taken_over, recycled, bget}

-- How many buffers hold the block.
abbrev pub count : ℕ → ℕ → List Buf → ℕ
count dev n [] = 0
count dev n (b ∷ l) = (if holds dev n b then 1 else 0) + count dev n l

-- Every block of a device but device 0, which no disk has, has at most one buffer.
abbrev pub Unique : List Buf → Type 0
Unique l = (dev n : ℕ) → count (suc dev) n l ≤ 1

-- What a search of the cache has done to the counts of block (d, m).
abbrev CountsAs : ℕ → ℕ → ℕ → Option (ℕ × List Buf) → Type 0
CountsAs d m c none = Unit
CountsAs d m c (some (i, l)) = count d m l ≡ c

behind-CountsAs :
    (d m c : ℕ) (b : Buf) (o : Option (ℕ × List Buf))
    → CountsAs d m c o
    → CountsAs d m ((if holds d m b then 1 else 0) + c) (behind b o)
behind-CountsAs d m c b none h = tt
behind-CountsAs d m c b (some (i, l)) h = omega arith

cached-CountsAs : (dev n d m : ℕ) (l : List Buf) → CountsAs d m (count d m l) (cached dev n l)
unfolding cached
cached-CountsAs dev n d m [] = tt
cached-CountsAs dev n d m (b ∷ l) = elim (Bool-cases (holds dev n b)) [
  | inl e ↦ rw e refl
  | inr e ↦
      rw e (behind-CountsAs d m (count d m l) b (cached dev n l) (cached-CountsAs dev n d m l))
]

-- A search that finds nothing has looked at every buffer.
abbrev Absent : Option (ℕ × List Buf) → ℕ → Type 0
Absent none c = c ≡ 0
Absent (some r) c = 0 < c

behind-Absent :
    (b : Buf) (o : Option (ℕ × List Buf)) (c : ℕ) → Absent o c → Absent (behind b o) (0 + c)
behind-Absent b none c h = omega arith
behind-Absent b (some (i, l)) c h = omega arith

cached-Absent : (dev n : ℕ) (l : List Buf) → Absent (cached dev n l) (count dev n l)
unfolding cached
cached-Absent dev n [] = refl
cached-Absent dev n (b ∷ l) = elim (Bool-cases (holds dev n b)) [
  | inl e ↦ rw e (omega arith)
  | inr e ↦ rw e (behind-Absent b (cached dev n l) (count dev n l) (cached-Absent dev n l))
]

abbrev one_if : Bool → ℕ
one_if b = if b then 1 else 0

-- What a buffer taken over for block (dev, n) does to the count of block (d, m).
abbrev Took : ℕ → ℕ → ℕ → ℕ → ℕ → Option (ℕ × List Buf) → Type 0
Took dev n d m c none = Unit
Took dev n d m c (some (i, l)) =
    (count d m l ≤ c + one_if (dev == d && n == m)) × (one_if (dev == d && n == m) ≤ count d m l)

behind-Took :
    (dev n d m c : ℕ) (b : Buf) (o : Option (ℕ × List Buf))
    → Took dev n d m c o
    → Took dev n d m (one_if (holds d m b) + c) (behind b o)
behind-Took dev n d m c b none h = tt
behind-Took dev n d m c b (some (i, l)) h = (omega (arith, h.0), omega (arith, h.1))

or_else-Took :
    (dev n d m c : ℕ) (o q : Option (ℕ × List Buf))
    → Took dev n d m c o
    → Took dev n d m c q
    → Took dev n d m c (or_else o q)
or_else-Took dev n d m c none q h g = g
or_else-Took dev n d m c (some (i, l)) q h g = h

here-Took :
    (dev n d m : ℕ) (b : Buf) (l : List Buf)
    → Took dev n d m
        (count d m (b ∷ l))
        (if unused_buf b then some (b.place, taken_over dev n b ∷ l) else none)
here-Took dev n d m b l = elim (Bool-cases (unused_buf b)) [
  | inl e ↦ rw e (omega arith, omega arith)
  | inr e ↦ rw e tt
]

recycled-Took : (dev n d m : ℕ) (l : List Buf) → Took dev n d m (count d m l) (recycled dev n l)
unfolding recycled
recycled-Took dev n d m [] = tt
recycled-Took dev n d m (b ∷ l) =
    or_else-Took dev n d m (count d m (b ∷ l)) (behind b (recycled dev n l))
      (if unused_buf b then some (b.place, taken_over dev n b ∷ l) else none)
      (behind-Took dev n d m (count d m l) b (recycled dev n l) (recycled-Took dev n d m l))
      (here-Took dev n d m b l)

-- What bget answers.
abbrev pub Given : ℕ → ℕ → Option (ℕ × List Buf) → Type 0
Given dev n none = Unit
Given dev n (some (i, l)) = Unique l × (count dev n l ≡ 1)

given :
    (dev n : ℕ) (l : List Buf) (o q : Option (ℕ × List Buf))
    → ((d m : ℕ) → CountsAs d m (count d m l) o)
    → Absent o (count (suc dev) n l)
    → ((d m : ℕ) → Took (suc dev) n d m (count d m l) q)
    → Unique l
    → Given (suc dev) n (or_else o q)
given dev n l none none same absent took u = tt
given dev n l none (some (i, l')) same absent took u = (
  λ d m. ground (arith, u d m, (took (suc d) m).0),
  ground (arith, (took (suc dev) n).0, (took (suc dev) n).1),
)
given dev n l (some (i, l')) q same absent took u =
    (λ d m. omega (arith, u d m, same (suc d) m), omega (arith, u dev n, same (suc dev) n))

pub bget-Given : (dev n : ℕ) (l : List Buf) → Unique l → Given (suc dev) n (bget (suc dev) n l)
unfolding bget
bget-Given dev n l u =
    given dev n l (cached (suc dev) n l) (recycled (suc dev) n l)
      (λ d m. cached-CountsAs (suc dev) n d m l) (cached-Absent (suc dev) n l)
      (λ d m. recycled-Took (suc dev) n d m l) u
