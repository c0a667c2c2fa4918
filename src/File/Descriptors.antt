-- ===== src/File/Descriptors.antt =====
-- The file descriptors of a process in Xv6-Threads/src/sysfile.c, over the table of open files: argfd,
-- fdalloc, sys_dup and sys_close. `ofile` is the list of its entries, and an argument that argint does
-- not find is `none`.
pub mod Counts
pub mod Calls
mod Tests
use os_wsl.Prelude.{
  ℕ, zero, suc, Bool, not, ◌||◌, Option, none, some, List, [], ◌∷◌, get_or, set, int_lt, minus_one,
  if◌then◌else◌,
}
use os_wsl.File.{File, filedup, Release, fileclose}

abbrev pub nofile : ℕ
nofile = 16

abbrev pub Descriptors : Type 0
Descriptors = List (Option ℕ)

-- The descriptor and the file.
abbrev pub opened : ℕ → Option ℕ → Option (ℕ × ℕ)
opened fd none = none
opened fd (some f) = some (fd, f)

unfoldable pub argfd : Option ℕ → Descriptors → Option (ℕ × ℕ)
argfd none ofile = none
argfd (some fd) ofile =
    if int_lt fd 0 || not (int_lt fd nofile) then none else opened fd (get_or ofile fd none)

abbrev pub behind_one : Option ℕ → Option (ℕ × Descriptors) → Option (ℕ × Descriptors)
behind_one e none = none
behind_one e (some (fd, ofile)) = some (suc fd, e ∷ ofile)

unfoldable pub fdalloc : ℕ → Descriptors → Option (ℕ × Descriptors)
fdalloc f [] = none
fdalloc f (none ∷ ofile) = some (0, some f ∷ ofile)
fdalloc f (some g ∷ ofile) = behind_one (some g) (fdalloc f ofile)

-- The value returned, the descriptors and the open files; a panic is `none`.
abbrev pub Dupped : Type 0
Dupped = Option (ℕ × Descriptors × List File)

abbrev pub with_files : ℕ → Descriptors → Option (List File) → Dupped
with_files fd ofile none = none
with_files fd ofile (some t) = some (fd, ofile, t)

abbrev pub placed : ℕ → Descriptors → List File → Option (ℕ × Descriptors) → Dupped
placed f ofile t none = some (minus_one, ofile, t)
placed f ofile t (some (fd, ofile')) = with_files fd ofile' (filedup f t)

abbrev pub dup_of : Descriptors → List File → Option (ℕ × ℕ) → Dupped
dup_of ofile t none = some (minus_one, ofile, t)
dup_of ofile t (some (fd, f)) = placed f ofile t (fdalloc f ofile)

unfoldable pub sys_dup : Option ℕ → Descriptors → List File → Dupped
sys_dup arg ofile t = dup_of ofile t (argfd arg ofile)

-- What the last close releases comes with the rest.
abbrev pub Closed : Type 0
Closed = Option (ℕ × Descriptors × List File × Release)

abbrev pub released : Descriptors → Option (Release × List File) → Closed
released ofile none = none
released ofile (some (r, t)) = some (0, ofile, t, r)

abbrev pub close_of : Descriptors → List File → Option (ℕ × ℕ) → Closed
close_of ofile t none = some (minus_one, ofile, t, Release.nothing)
close_of ofile t (some (fd, f)) = released (set ofile fd none) (fileclose f t)

unfoldable pub sys_close : Option ℕ → Descriptors → List File → Closed
sys_close arg ofile t = close_of ofile t (argfd arg ofile)
