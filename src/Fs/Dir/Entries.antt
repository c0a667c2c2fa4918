-- ===== src/Fs/Dir/Entries.antt =====
-- A directory of Xv6-Threads/src/fs.c as a list of names and inode numbers.
use mathlib.Core.Path.{subst}
use os_wsl.Prelude.{
  ℕ, zero, suc, ◌+◌, ◌*◌, ◌<◌, ◌≡◌, inl, inr, refl, sym, ap, ap₂, ◌∙◌, ◌↔◌, Bool, true, false, ◌&&◌,
  none, some, List, [], ◌∷◌, arith, ◌==◌, if◌then◌else◌, Bool-cases, ==_iff,
}
use os_wsl.String.Comparing.{text}
use os_wsl.Fs.Dir.{Found, inum_at}
use os_wsl.Fs.Content.{Memory}

-- Two names are equal.
abbrev pub same_name : List ℕ → List ℕ → Bool
same_name [] [] = true
same_name [] (y ∷ ys) = false
same_name (x ∷ xs) [] = false
same_name (x ∷ xs) (y ∷ ys) = x == y && same_name xs ys

-- Of the `n` entries from entry `k` on in the bytes of a directory, the first that is in use and has
-- the name: its inode number, and its offset.
abbrev pub find : (ℕ → ℕ) → List ℕ → ℕ → ℕ → Found
find file name zero k = none
find file name (suc n) k =
    let rest = find file name n (k + 1) in
    if inum_at (16 * k) file == 0
    then rest
    else (if same_name name (text (16 * k + 2) 14 file)
        then some (inum_at (16 * k) file, 16 * k)
        else rest)

pub text-same :
    (n p q : ℕ) (m m' : Memory)
    → ((i : ℕ) → i < n → m (p + i) ≡ m' (q + i))
    → text p n m ≡ text q n m'
text-same zero p q m m' h = refl
text-same (suc n) p q m m' h = ground (
  arith,
  h 0 (omega arith),
  text-same n (p + 1) (q + 1) m m'
      (λ i lt. ap m (omega arith) ∙ h (i + 1) (omega arith) ∙ ap m' (omega arith)),
)

same_name_refl : (xs : List ℕ) → same_name xs xs ≡ true
same_name_refl [] = refl
same_name_refl (x ∷ xs) = ground (arith, same_name_refl xs)

same_name-eq : (xs ys : List ℕ) → same_name xs ys ≡ true → xs ≡ ys
same_name-eq [] [] h = refl
same_name-eq [] (y ∷ ys) h = let no : false ≡ true = h in absurd (ground arith)
same_name-eq (x ∷ xs) [] h = let no : false ≡ true = h in absurd (ground arith)
same_name-eq (x ∷ xs) (y ∷ ys) h =
    ap₂ (λ a b. a ∷ b) (ground arith) (same_name-eq xs ys (ground arith))

pub same_name_iff : (xs ys : List ℕ) → (same_name xs ys ≡ true) ↔ (xs ≡ ys)
same_name_iff xs ys =
    (same_name-eq xs ys, λ e. subst (λ z. same_name xs z ≡ true) e (same_name_refl xs))

-- A test against 0 that means equality.
pub test_same : (xs ys : List ℕ) (d : ℕ) → (d ≡ 0) ↔ (xs ≡ ys) → (d == 0) ≡ same_name xs ys
test_same xs ys d h = elim (Bool-cases (d == 0)) [
  | inl e ↦ e ∙ sym ((same_name_iff xs ys).1 (h.0 ((==_iff d 0).0 e)))
  | inr e ↦ elim (Bool-cases (same_name xs ys)) [
    | inl f ↦ let zero_too : d ≡ 0 = h.1 ((same_name_iff xs ys).0 f) in absurd (ground arith)
    | inr f ↦ e ∙ sym f
  ]
]
