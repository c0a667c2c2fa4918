-- ===== src/String/Tests.antt =====
-- Small memories: the theorems on Xv6-Threads/src/string.c at them.
use os_wsl.Prelude.{◌&&◌, ℕ, ◌<◌, ◌≡◌, arith, ltb, leb, ◌==◌, if◌then◌else◌}
use os_wsl.String.{Mem, memmove}
use os_wsl.String.Moving.{memmove-moved}

-- Three letters and a zero at 10, the numbers of the bytes elsewhere.
abbrev letters : Mem
letters c =
    if leb 10 c && ltb c 14 then (if c == 13 then 0 else 97) else (if ltb c 200 then c else 7)

letters_are_bytes : (c : ℕ) → letters c < 256
letters_are_bytes c = ground arith

memmove-moved_example : memmove 22 20 5 letters 24 ≡ 22
memmove-moved_example = memmove-moved 22 20 5 letters 24
