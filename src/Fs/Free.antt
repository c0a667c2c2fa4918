-- ===== src/Fs/Free.antt =====
-- How many blocks are free in the bitmap of Xv6-Threads/src/fs.c.
use os_wsl.Prelude.{
  ℕ, zero, suc, ◌+◌, ◌<◌, ◌≡◌, refl, ap, ap₂, ◌∙◌, inl, inr, Bool, true, false, arith, ◌==◌,
  if◌then◌else◌, Bool-cases,
}
use os_wsl.Fs.{Superblock, Bytes}
use os_wsl.Fs.Bitmap.{used, AllUsed}

abbrev one_free : Bool → ℕ
one_free b = if b then 0 else 1

abbrev frees : (ℕ → Bool) → ℕ → ℕ
frees u zero = 0
frees u (suc n) = one_free (u n) + frees u n

frees-same : (u v : ℕ → Bool) (n : ℕ) → ((c : ℕ) → c < n → v c ≡ u c) → frees u n ≡ frees v n
frees-same u v zero h = refl
frees-same u v (suc n) h =
    omega (arith, ap one_free (h n (omega arith)), frees-same u v n (λ c lt. h c (omega arith)))

frees-taken :
    (u v : ℕ → Bool) (n a : ℕ)
    → a < n
    → u a ≡ false
    → ((c : ℕ) → c < n → v c ≡ (if c == a then true else u c))
    → frees u n ≡ suc (frees v n)
frees-taken u v zero a lt free h = absurd (omega arith)
frees-taken u v (suc n) a lt free h = elim (Bool-cases (n == a)) [
  | inl e ↦
      let was : u n ≡ false = ap u (ground arith) ∙ free in
      let now : v n ≡ true = ground (arith, h n (omega arith)) in
      let below : frees u n ≡ frees v n =
        frees-same u v n (λ c l. ground (arith, h c (omega arith))) in
      ap₂ (λ (x y : ℕ). x + y) (ap one_free was) below ∙ ground arith
  | inr e ↦
      let here : v n ≡ u n = ground (arith, h n (omega arith)) in
      let below : frees u n ≡ suc (frees v n) =
        frees-taken u v n a (ground arith) free (λ c l. h c (omega arith)) in
      omega (arith, ap one_free here, below)
]

-- The number of blocks of the disk that are free.
abbrev pub free_blocks : Superblock → Bytes → ℕ
free_blocks sb st = frees (used sb st) sb.size

pub free-taken :
    (sb : Superblock) (st st' : Bytes) (a : ℕ)
    → a < sb.size
    → used sb st a ≡ false
    → ((c : ℕ) → c < sb.size → used sb st' c ≡ (if c == a then true else used sb st c))
    → free_blocks sb st ≡ suc (free_blocks sb st')
free-taken sb st st' a lt free h = frees-taken (used sb st) (used sb st') sb.size a lt free h

pub free-same :
    (sb : Superblock) (st st' : Bytes)
    → ((c : ℕ) → c < sb.size → used sb st' c ≡ used sb st c)
    → free_blocks sb st ≡ free_blocks sb st'
free-same sb st st' h = frees-same (used sb st) (used sb st') sb.size h

frees-none : (u : ℕ → Bool) (n : ℕ) → ((c : ℕ) → c < n → u c ≡ true) → frees u n ≡ 0
frees-none u zero h = refl
frees-none u (suc n) h =
    omega (arith, ap one_free (h n (omega arith)), frees-none u n (λ c lt. h c (omega arith)))

pub free-none : (sb : Superblock) (st : Bytes) → AllUsed sb st 0 sb.size → free_blocks sb st ≡ 0
free-none sb st h = frees-none (used sb st) sb.size (λ c lt. h c (omega arith) lt lt)
