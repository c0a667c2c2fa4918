-- ===== src/String/Comparing.antt =====
-- `memcmp` and `strncmp` of Xv6-Threads/src/string.c against equality.
use os_wsl.Prelude.{
  ℕ, zero, suc, ◌+◌, ◌<◌, ◌≡◌, refl, List, [], ◌∷◌, ◌↔◌, arith, ◌==◌, if◌then◌else◌,
}
use os_wsl.String.{Mem, byte_diff, memcmp, strncmp}

-- The string at `p`, cut off after `n` bytes.
abbrev pub text : ℕ → ℕ → Mem → List ℕ
text p zero m = []
text p (suc n) m = let rest = text (p + 1) n m in if m p == 0 then [] else m p ∷ rest

abbrev pub bytes_at : ℕ → ℕ → Mem → List ℕ
bytes_at p zero m = []
bytes_at p (suc n) m = m p ∷ bytes_at (p + 1) n m

module _ (m : Mem) (bytes : (c : ℕ) → m c < 256) where
  differ : (p q : ℕ) → byte_diff (m p) (m q) ≡ 0 → m p ≡ m q
  differ p q h = omega (arith, bytes p, bytes q)

  strncmp-text : (n p q : ℕ) → strncmp p q n m ≡ 0 → text p n m ≡ text q n m
  unfolding strncmp
  strncmp-text zero p q h = refl
  strncmp-text (suc n) p q h =
      ground (arith, differ p q, strncmp-text n (p + 1) (q + 1), bytes p, bytes q)

  text-strncmp : (n p q : ℕ) → text p n m ≡ text q n m → strncmp p q n m ≡ 0
  unfolding strncmp
  text-strncmp zero p q h = refl
  text-strncmp (suc n) p q h = ground (arith, text-strncmp n (p + 1) (q + 1), bytes p, bytes q)

  -- `strncmp` is 0 for equal strings, cut off after `n` bytes, and for no others.
  pub strncmp_iff : (n p q : ℕ) → (strncmp p q n m ≡ 0) ↔ (text p n m ≡ text q n m)
  strncmp_iff n p q = (strncmp-text n p q, text-strncmp n p q)

  memcmp-bytes_at : (n p q : ℕ) → memcmp p q n m ≡ 0 → bytes_at p n m ≡ bytes_at q n m
  unfolding memcmp
  memcmp-bytes_at zero p q h = refl
  memcmp-bytes_at (suc n) p q h =
      ground (arith, differ p q, memcmp-bytes_at n (p + 1) (q + 1), bytes p, bytes q)

  bytes_at-memcmp : (n p q : ℕ) → bytes_at p n m ≡ bytes_at q n m → memcmp p q n m ≡ 0
  unfolding memcmp
  bytes_at-memcmp zero p q h = refl
  bytes_at-memcmp (suc n) p q h =
      ground (arith, bytes_at-memcmp n (p + 1) (q + 1), bytes p, bytes q)

  -- `memcmp` is 0 for equal bytes, and for no others.
  pub memcmp_iff : (n p q : ℕ) → (memcmp p q n m ≡ 0) ↔ (bytes_at p n m ≡ bytes_at q n m)
  memcmp_iff n p q = (memcmp-bytes_at n p q, bytes_at-memcmp n p q)
