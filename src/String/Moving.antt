-- ===== src/String/Moving.antt =====
-- `memmove` and `memset` of Xv6-Threads/src/string.c against what they are for.
use os_wsl.Prelude.{
  ℕ, zero, suc, ◌+◌, ◌-◌, ◌*◌, ◌/◌, ◌%◌, ◌≤◌, ◌<◌, ◌≡◌, ap, ◌∙◌, ◌⊎◌, inl, inr, ◌&&◌, arith, ltb,
  leb, ◌==◌, if◌then◌else◌, Bool-cases,
}
use os_wsl.String.{Mem, poke, poke_word, word_of, stosb, stosl, memset, copy_up, copy_down, memmove}

-- The copy that `memmove` is to make: all bytes at once.
abbrev pub moved : ℕ → ℕ → ℕ → Mem → Mem
moved d s n m c = if leb d c && ltb c (d + n) then m (s + (c - d)) else m c

at : (m : Mem) {a b : ℕ} → a ≡ b → m a ≡ m b
at m e = ap m e

copy_up-moved :
    (n d s : ℕ) (m : Mem) (c : ℕ) → (d ≤ s) ⊎ (s + n ≤ d) → copy_up n d s m c ≡ moved d s n m c
unfolding copy_up
copy_up-moved zero d s m c h = ground arith
copy_up-moved (suc n) d s m c h =
    ground (arith, copy_up-moved n (d + 1) (s + 1) (poke d (m s) m) c (omega arith))

copy_down-moved :
    (n d s : ℕ) (m : Mem) (c : ℕ) → s ≤ d → copy_down n (d + n) (s + n) m c ≡ moved d s n m c
unfolding copy_down
copy_down-moved zero d s m c h = ground arith
copy_down-moved (suc n) d s m c h =
    ground (arith, copy_down-moved n d s (poke (d + n) (m (s + n)) m) c h)

-- `memmove` copies as if all bytes were read before any is written, however source and destination
-- overlap: byte `d + i` is then what byte `s + i` was, for the `n` bytes, and no other byte changes.
pub memmove-moved : (d s n : ℕ) (m : Mem) (c : ℕ) → memmove d s n m c ≡ moved d s n m c
unfolding memmove
memmove-moved d s n m c = elim (Bool-cases (ltb s d && ltb d (s + n))) [
  | inl e ↦ rw e (copy_down-moved n d s m c (ground arith))
  | inr e ↦ rw e (copy_up-moved n d s m c (ground arith))
]

abbrev pub filled : ℕ → ℕ → ℕ → Mem → Mem
filled a b n m c = if leb a c && ltb c (a + n) then b else m c

stosb-filled : (n a b : ℕ) (m : Mem) (c : ℕ) → stosb a b n m c ≡ filled a (b % 256) n m c
unfolding stosb
stosb-filled zero a b m c = ground arith
stosb-filled (suc n) a b m c = ground (arith, stosb-filled n (a + 1) b (poke a (b % 256) m) c)

poke_word-filled :
    (a b : ℕ) (m : Mem) (c : ℕ) → b < 256 → poke_word a (word_of b) m c ≡ filled a b 4 m c
poke_word-filled a b m c h = ground arith

stosl-filled :
    (n a b : ℕ) (m : Mem) (c : ℕ) → b < 256 → stosl a (word_of b) n m c ≡ filled a b (n * 4) m c
unfolding stosl
stosl-filled zero a b m c h = ground arith
stosl-filled (suc n) a b m c h =
    stosl-filled n (a + 4) b (poke_word a (word_of b) m) c h
    ∙ ground (arith, poke_word-filled a b m c h)

-- `memset` fills `n` bytes with the low byte of its argument and changes no other, on its fast path,
-- which stores words, as on its slow one.
pub memset-filled :
    (dst c n : ℕ) (m : Mem) (a : ℕ) → memset dst c n m a ≡ filled dst (c % 256) n m a
unfolding memset
memset-filled dst c n m a = elim (Bool-cases (dst % 4 == 0 && n % 4 == 0)) [
  | inl e ↦
      let whole : n / 4 * 4 ≡ n = ground arith in
      rw e (
        stosl-filled (n / 4) dst (c % 256) m a (omega arith)
        ∙ ap (λ k. filled dst (c % 256) k m a) whole)
  | inr e ↦ rw e (stosb-filled n dst c m a)
]
