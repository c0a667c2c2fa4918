-- ===== src/String/Copying.antt =====
-- `strncpy` and `safestrcpy` of Xv6-Threads/src/string.c against what they are for.
use os_wsl.Prelude.{
  ℕ, zero, suc, ◌+◌, ◌-◌, ◌≤◌, ◌<◌, ◌≡◌, refl, ap, ◌∙◌, ◌⊎◌, inl, inr, false, ◌&&◌, ◌||◌, none,
  some, arith, ltb, leb, ◌==◌, if◌then◌else◌, Bool-cases,
}
use os_wsl.String.{Mem, poke, pad, strncpy, safe_copy, safestrcpy, strlen}
use os_wsl.String.Moving.{filled}

pad-filled : (n s : ℕ) (m : Mem) (c : ℕ) → pad s n m c ≡ filled s 0 n m c
unfolding pad
pad-filled zero s m c = ground arith
pad-filled (suc n) s m c = ground (arith, pad-filled n (s + 1) (poke s 0 m) c)

-- Byte `i` of the string at `t`, where every byte behind the terminating zero is a zero.
abbrev pub padded : ℕ → ℕ → Mem → ℕ
padded t zero m = m t
padded t (suc i) m = let rest = padded (t + 1) i m in if m t == 0 then 0 else rest

padded-poke :
    (i t s b : ℕ) (m : Mem) → (s < t) ⊎ (t + i < s) → padded t i (poke s b m) ≡ padded t i m
padded-poke zero t s b m h = ground arith
padded-poke (suc i) t s b m h = ground (arith, padded-poke i (t + 1) s b m (omega arith))

padded_zero : (i t : ℕ) (m : Mem) → m t ≡ 0 → padded t i m ≡ 0
padded_zero zero t m h = h
padded_zero (suc i) t m h = ground arith

padded_suc :
    (i t : ℕ) (m : Mem) → 0 < i → (m t == 0) ≡ false → padded t i m ≡ padded (t + 1) (i - 1) m
padded_suc zero t m h e = elim h [ ]
padded_suc (suc i) t m h e = rw e (ap (λ j. padded (t + 1) j m) (omega arith))

sub_sub : (c s : ℕ) → c - (s + 1) ≡ c - s - 1
sub_sub c s = omega arith

padded_first : (i t : ℕ) (m : Mem) → i ≡ 0 → padded t i m ≡ m t
padded_first zero t m h = refl
padded_first (suc i) t m h = absurd (omega arith)

-- `strncpy` into another object fills exactly `n` bytes: with the string's, and with zeros behind its
-- end. No other byte changes.
pub strncpy_lem :
    (n s t : ℕ) (m : Mem) (c : ℕ)
    → (s + n ≤ t) ⊎ (t + n ≤ s)
    → strncpy s t n m c ≡ (if leb s c && ltb c (s + n) then padded t (c - s) m else m c)
unfolding strncpy
strncpy_lem zero s t m c apart = ground arith
strncpy_lem (suc n) s t m c apart = elim (Bool-cases (m t == 0)) [
  | inl e ↦ rw e (
      pad-filled n (s + 1) (poke s (m t) m) c
      ∙ ground (arith, padded_zero (c - s) t m (ground arith)))
  | inr e ↦ rw e (
      strncpy_lem n (s + 1) (t + 1) (poke s (m t) m) c (omega arith)
      ∙ ground (
        arith,
        padded_first (c - s) t m,
        padded_suc (c - s) t m,
        padded-poke (c - s - 1) (t + 1) s (m t) m,
        ap (λ i. padded (t + 1) i (poke s (m t) m)) (sub_sub c s),
      ))
]

later : (m : Mem) (c s t : ℕ) → s < c → m (t + 1 + (c - (s + 1))) ≡ m (t + (c - s))
later m c s t h = ap m (omega arith)

here : (m : Mem) (c s t : ℕ) → c ≡ s → m (t + (c - s)) ≡ m t
here m c s t h = ap m (omega arith)

-- How many bytes the string at `t` has, up to `n`.
abbrev pub text_length : ℕ → ℕ → Mem → ℕ
text_length t zero m = 0
text_length t (suc n) m = let rest = text_length (t + 1) n m in if m t == 0 then 0 else suc rest

text_length-poke :
    (n t s b : ℕ) (m : Mem)
    → (s < t) ⊎ (t + n ≤ s)
    → text_length t n (poke s b m) ≡ text_length t n m
text_length-poke zero t s b m h = refl
text_length-poke (suc n) t s b m h = ground (arith, text_length-poke n (t + 1) s b m (omega arith))

text_length-le : (n t : ℕ) (m : Mem) → text_length t n m ≤ n
text_length-le zero t m = omega arith
text_length-le (suc n) t m = ground (arith, text_length-le n (t + 1) m)

safe_copy_lem :
    (n s t : ℕ) (m : Mem) (c : ℕ)
    → (s + n < t) ⊎ (t + n ≤ s)
    → safe_copy s t n m c ≡ (
        if leb s c && ltb c (s + text_length t n m)
        then m (t + (c - s))
        else (if (c == s + text_length t n m)
              || ((c == s + text_length t n m + 1) && ltb (text_length t n m) n)
            then 0
            else m c))
unfolding safe_copy
safe_copy_lem zero s t m c apart = ground arith
safe_copy_lem (suc n) s t m c apart = elim (Bool-cases (m t == 0)) [
  | inl e ↦ rw e (ground arith)
  | inr e ↦ rw e (
      safe_copy_lem n (s + 1) (t + 1) (poke s (m t) m) c (omega arith)
      ∙ ground (
        arith,
        text_length-poke n (t + 1) s (m t) m,
        text_length-le n (t + 1) m,
        later m c s t,
        here m c s t,
      ))
]

-- `safestrcpy` into another object of `n + 1` bytes copies the string, cut off after `n` bytes, and
-- ends it with a zero. No other byte changes, but that the zero of a string that is not cut off is
-- written twice, within the bound.
pub safestrcpy_lem :
    (n s t : ℕ) (m : Mem) (c : ℕ)
    → (s + n < t) ⊎ (t + n ≤ s)
    → safestrcpy s t (suc n) m c ≡ (
        if leb s c && ltb c (s + text_length t n m)
        then m (t + (c - s))
        else (if (c == s + text_length t n m)
              || ((c == s + text_length t n m + 1) && ltb (text_length t n m) n)
            then 0
            else m c))
unfolding safestrcpy
safestrcpy_lem n s t m c apart = safe_copy_lem n s t m c apart

-- The loop of `strlen` ends within `n` steps if there is a zero among the first `n` bytes, and then
-- gives the number of bytes before it.
pub strlen_lem :
    (n s : ℕ) (m : Mem)
    → strlen n s m ≡ (if ltb (text_length s n m) n then some (text_length s n m) else none)
unfolding strlen
strlen_lem zero s m = ground arith
strlen_lem (suc n) s m = ground (arith, strlen_lem n (s + 1) m)
