-- ===== src/String.antt =====
-- Xv6-Threads/src/string.c over a byte-addressed memory. An object lies within the address space, so
-- that a pointer into it, or to its end, does not wrap.
pub mod Moving
pub mod Copying
pub mod Comparing
mod Tests
use os_wsl.Prelude.{
  ℕ, zero, suc, ◌+◌, ◌-◌, ◌*◌, ◌/◌, ◌%◌, ◌&&◌, Option, none, some, ltb, u32, ◌==◌, if◌then◌else◌,
}

abbrev pub Mem : Type 0
Mem = ℕ → ℕ

abbrev pub poke : ℕ → ℕ → Mem → Mem
poke a b m c = if c == a then b else m c

-- `stosb` of Xv6-Threads/src/x86.h: `n` bytes.
unfoldable pub stosb : ℕ → ℕ → ℕ → Mem → Mem
stosb a c zero m = m
stosb a c (suc n) m = stosb (a + 1) c n (poke a (c % 256) m)

-- A little-endian word.
abbrev pub poke_word : ℕ → ℕ → Mem → Mem
poke_word a w m =
    poke (a + 3) (w / 16777216 % 256)
      (poke (a + 2) (w / 65536 % 256) (poke (a + 1) (w / 256 % 256) (poke a (w % 256) m)))

-- `stosl` of Xv6-Threads/src/x86.h: `n` words.
unfoldable pub stosl : ℕ → ℕ → ℕ → Mem → Mem
stosl a w zero m = m
stosl a w (suc n) m = stosl (a + 4) w n (poke_word a w m)

-- The four bytes have no bit in common, so that `|` adds them.
abbrev pub word_of : ℕ → ℕ
word_of c = c * 16777216 + c * 65536 + c * 256 + c

unfoldable pub memset : ℕ → ℕ → ℕ → Mem → Mem
unfolding stosb stosl
memset dst c n m =
    if dst % 4 == 0 && n % 4 == 0 then stosl dst (word_of (c % 256)) (n / 4) m else stosb dst c n m

-- The two loops of `memmove`, upwards and downwards.
unfoldable pub copy_up : ℕ → ℕ → ℕ → Mem → Mem
copy_up zero d s m = m
copy_up (suc n) d s m = copy_up n (d + 1) (s + 1) (poke d (m s) m)

unfoldable pub copy_down : ℕ → ℕ → ℕ → Mem → Mem
copy_down zero d s m = m
copy_down (suc n) d s m = copy_down n (d - 1) (s - 1) (poke (d - 1) (m (s - 1)) m)

unfoldable pub memmove : ℕ → ℕ → ℕ → Mem → Mem
unfolding copy_up copy_down
memmove d s n m =
    if ltb s d && ltb d (s + n) then copy_down n (d + n) (s + n) m else copy_up n d s m

-- The difference of two bytes as an `int`.
abbrev pub byte_diff : ℕ → ℕ → ℕ
byte_diff a b = u32 (a % 256 + 4294967296 - b % 256)

unfoldable pub memcmp : ℕ → ℕ → ℕ → Mem → ℕ
memcmp a b zero m = 0
memcmp a b (suc n) m =
    let rest = memcmp (a + 1) (b + 1) n m in if m a == m b then rest else byte_diff (m a) (m b)

unfoldable pub strncmp : ℕ → ℕ → ℕ → Mem → ℕ
strncmp p q zero m = 0
strncmp p q (suc n) m =
    let rest = strncmp (p + 1) (q + 1) n m in
    if m p == 0 then byte_diff (m p) (m q) else (if m p == m q then rest else byte_diff (m p) (m q))

-- The second loop of `strncpy`, which pads with zeros.
unfoldable pub pad : ℕ → ℕ → Mem → Mem
pad s zero m = m
pad s (suc n) m = pad (s + 1) n (poke s 0 m)

-- `strncpy`, for a bound that is not negative.
unfoldable pub strncpy : ℕ → ℕ → ℕ → Mem → Mem
unfolding pad
strncpy s t zero m = m
strncpy s t (suc n) m =
    let m' = poke s (m t) m in
    let rest = strncpy (s + 1) (t + 1) n m' in if m t == 0 then pad (s + 1) n m' else rest

-- The loop of `safestrcpy` with `n` bytes to go, and the zero behind it.
unfoldable pub safe_copy : ℕ → ℕ → ℕ → Mem → Mem
safe_copy s t zero m = poke s 0 m
safe_copy s t (suc n) m =
    let m' = poke s (m t) m in
    let rest = safe_copy (s + 1) (t + 1) n m' in if m t == 0 then poke (s + 1) 0 m' else rest

-- `safestrcpy`, for a bound that is not negative.
unfoldable pub safestrcpy : ℕ → ℕ → ℕ → Mem → Mem
unfolding safe_copy
safestrcpy s t zero m = m
safestrcpy s t (suc n) m = safe_copy s t n m

-- `strlen`, with fuel for its loop.
unfoldable pub strlen : ℕ → ℕ → Mem → Option ℕ
strlen zero s m = none
strlen (suc fuel) s m =
    let rest = strlen fuel (s + 1) m in
    if m s == 0 then some 0 else elim rest [ none ↦ none | some n ↦ some (suc n) ]

unfoldable pub memcpy : ℕ → ℕ → ℕ → Mem → Mem
unfolding memmove
memcpy dst src n m = memmove dst src n m
