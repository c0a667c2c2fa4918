-- ===== src/File/Descriptors/Tests.antt =====
-- Descriptors of Xv6-Threads/src/sysfile.c at a small table.
use os_wsl.Prelude.{
  ℕ, zero, suc, ◌<◌, ◌≡◌, refl, none, some, List, [], ◌∷◌, arith, ◌==◌, if◌then◌else◌,
}
use os_wsl.File.{File, empty_file, file_at, filedup}
use os_wsl.File.Descriptors.{Descriptors, argfd, fdalloc, sys_dup, sys_close}
use os_wsl.File.Descriptors.Counts.{Agrees}
use os_wsl.File.Descriptors.Calls.{Dups, Closes, sys_dup_lem, sys_close_lem}

-- One file, open on descriptor 1 and once elsewhere; descriptor 0 is free.
abbrev ofile : Descriptors
ofile = none ∷ some 0 ∷ none ∷ []

abbrev files : List File
files = record empty_file { ref = 2 } ∷ []

abbrev other : ℕ → ℕ
other f = if f == 0 then 1 else 0

files-Agrees : Agrees other ofile files
files-Agrees zero = refl
files-Agrees (suc f) = ground arith

files_small : (f : ℕ) → (file_at files f).ref < 2147483647
files_small zero = omega arith
files_small (suc f) = omega arith

dup_one :
    sys_dup (some 1) ofile files
    ≡ some (0, some 0 ∷ some 0 ∷ none ∷ [], record empty_file { ref = 3 } ∷ [])
unfolding sys_dup argfd fdalloc filedup
dup_one = refl

sys_dup_lem_example : Dups other (some 1) ofile files (sys_dup (some 1) ofile files)
sys_dup_lem_example = sys_dup_lem other (some 1) ofile files files-Agrees files_small

sys_close_lem_example : Closes other (some 1) ofile files (sys_close (some 1) ofile files)
sys_close_lem_example = sys_close_lem other (some 1) ofile files files-Agrees files_small
