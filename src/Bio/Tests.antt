-- ===== src/Bio/Tests.antt =====
-- A small disk: the theorem on Xv6-Threads/src/bio.c at it.
use os_wsl.Prelude.{◌≤◌, ◌≡◌, refl, none, some, List, [], ◌∷◌}
use os_wsl.Bio.{Buf, Devices, binit, bget, bread}
use os_wsl.Bio.Unique.{count}
use os_wsl.Bio.Cache.{boots, reads, one_buffer}

-- Each block holds its number.
abbrev disk : Devices
disk dev n = n ∷ []

-- Block 7 of device 1 is in the first buffer that was free, at place 0, and block 9 in the next.
abbrev first_read : List Buf
first_read = elim (bread disk 1 7 binit) [ none ↦ [] | some (i, l) ↦ l ]

abbrev second_read : List Buf
second_read = elim (bread disk 1 9 first_read) [ none ↦ [] | some (i, l) ↦ l ]

one_buffer_example : (count 1 7 second_read ≤ 1) × (count 1 9 second_read ≡ 1)
unfolding bread bget binit
one_buffer_example = one_buffer disk 0 9 1 0 7 (reads disk 0 7 0 boots refl) refl
