-- ===== src/File/Writing.antt =====
-- `filewrite` of Xv6-Threads/src/file.c, which cuts a write into transactions.
use os_wsl.Prelude.{ℕ, ◌+◌, ◌≤◌, ◌<◌, ◌≡◌, ◌⊎◌, ◌%◌, u32, minus_one}
use os_wsl.File.{File, WriteLoop, Transfer, max_chunk, ended}

-- `writei` of up to a chunk, which writes all of it or returns -1: so the writei of Xv6-Threads/src/fs.c
-- does with a file, by its length checks.
abbrev pub AllOrNone : {S : Type 0} → Transfer S → Type 0
AllOrNone {S} writei =
    (ip a off n : ℕ) (s : S)
    → n ≤ max_chunk
    → ((writei ip a off n s).0 ≡ n) ⊎ ((writei ip a off n s).0 ≡ minus_one)

abbrev moved_on : ℕ → File → File
moved_on n f = record f { off = u32 (f.off + n) }

-- The loop has written all that was left, or full chunks only.
abbrev Wrote : {S : Type 0} → ℕ → ℕ → File → WriteLoop S → Type 0
Wrote {S} i left f w =
    (s : S) × ((w ≡ ended (i + left) (moved_on left f) s)
      ⊎ ((k : ℕ) × ((k < left) × (k % max_chunk ≡ 0) × (w ≡ ended (i + k) (moved_on k f) s))))
