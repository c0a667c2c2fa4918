-- ===== src/File/Descriptors/Counts.antt =====
-- The reference counts of Xv6-Threads/src/file.c and the descriptors of Xv6-Threads/src/sysfile.c.
use os_wsl.Prelude.{
  ℕ, zero, suc, ◌+◌, ◌≤◌, ◌<◌, ◌≡◌, ◌≢◌, refl, ap, ◌∙◌, inl, inr, true, not, ◌||◌, Option, none,
  some, List, [], ◌∷◌, arith, length, get_or, set, ◌==◌, if◌then◌else◌, int_lt, Bool-cases,
}
use os_wsl.File.{File, file_at, set_ref}
use os_wsl.File.References.{ref-set}
use os_wsl.File.Descriptors.{Descriptors, opened, argfd, behind_one, fdalloc}

-- The descriptors of the process that are open on file `f`.
abbrev pub is : ℕ → Option ℕ → ℕ
is f none = 0
is f (some g) = if f == g then 1 else 0

abbrev pub uses : ℕ → Descriptors → ℕ
uses f [] = 0
uses f (e ∷ ofile) = is f e + uses f ofile

-- The reference count of every file is the number of its descriptors in this process and of the references
-- elsewhere.
abbrev pub Agrees : (ℕ → ℕ) → Descriptors → List File → Type 0
Agrees other ofile t = (f : ℕ) → (file_at t f).ref ≡ uses f ofile + other f

uses-set :
    (f : ℕ) (ofile : Descriptors) (fd : ℕ) (e : Option ℕ)
    → fd < length ofile
    → uses f (set ofile fd e) + is f (get_or ofile fd none) ≡ uses f ofile + is f e
uses-set f [] fd e lt = absurd (omega arith)
uses-set f (x ∷ ofile) zero e lt = omega arith
uses-set f (x ∷ ofile) (suc fd) e lt = omega (arith, uses-set f ofile fd e (omega arith))

pub uses-some :
    (ofile : Descriptors) (fd f : ℕ)
    → get_or ofile fd none ≡ some f
    → (fd < length ofile) × (1 ≤ uses f ofile)
uses-some [] fd f h = absurd (not_some h)
  where
    not_some : ¬ (none ≡ some f)
    not_some e = cc
uses-some (x ∷ ofile) zero f h =
    let self : (f == f) ≡ true = ground arith in
    let here : is f x ≡ 1 = ap (is f) h ∙ rw self refl in (omega arith, omega (arith, here))
uses-some (x ∷ ofile) (suc fd) f h =
    let (lt, one) = uses-some ofile fd f h in (omega arith, omega arith)

-- What `argfd` finds.
abbrev pub Opens : Descriptors → Option (ℕ × ℕ) → Type 0
Opens ofile none = Unit
Opens ofile (some (fd, f)) = get_or ofile fd none ≡ some f

pub argfd-Opens : (arg : Option ℕ) (ofile : Descriptors) → Opens ofile (argfd arg ofile)
unfolding argfd
argfd-Opens none ofile = tt
argfd-Opens (some fd) ofile = elim (Bool-cases (int_lt fd 0 || not (int_lt fd 16))) [
  | inl e ↦ rw e tt
  | inr e ↦ rw e (found (get_or ofile fd none) refl)
]
  where
    found : (o : Option ℕ) → get_or ofile fd none ≡ o → Opens ofile (opened fd o)
    found none e = tt
    found (some f) e = e

-- What `fdalloc` does: it takes the first free entry.
abbrev pub Placed : ℕ → Descriptors → Option (ℕ × Descriptors) → Type 0
Placed f ofile none = (k : ℕ) → k < length ofile → get_or ofile k none ≢ none
Placed f ofile (some (fd, ofile')) =
    (fd < length ofile)
    × (get_or ofile fd none ≡ none)
    × ((k : ℕ) → k < fd → get_or ofile k none ≢ none)
    × (ofile' ≡ set ofile fd (some f))

behind-Placed :
    (f g : ℕ) (ofile : Descriptors) (o : Option (ℕ × Descriptors))
    → Placed f ofile o
    → Placed f (some g ∷ ofile) (behind_one (some g) o)
behind-Placed f g ofile none p = full
  where
    full : (k : ℕ) → k < suc (length ofile) → get_or (some g ∷ ofile) k none ≢ none
    full zero lt e = cc
    full (suc k) lt e = p k (omega arith) e
behind-Placed f g ofile (some (fd, ofile')) (lt, free, below, same) =
    (omega arith, free, taken, ap (λ l. some g ∷ l) same)
  where
    taken : (k : ℕ) → k < suc fd → get_or (some g ∷ ofile) k none ≢ none
    taken zero l e = cc
    taken (suc k) l e = below k (omega arith) e

pub fdalloc-Placed : (f : ℕ) (ofile : Descriptors) → Placed f ofile (fdalloc f ofile)
unfolding fdalloc
fdalloc-Placed f [] = λ k lt. absurd (omega arith)
fdalloc-Placed f (none ∷ ofile) = (omega arith, refl, λ k lt. absurd (omega arith), refl)
fdalloc-Placed f (some g ∷ ofile) =
    behind-Placed f g ofile (fdalloc f ofile) (fdalloc-Placed f ofile)

-- One reference more for an entry that was free, or one less for one that was open.
pub dup-Agrees :
    (other : ℕ → ℕ) (ofile : Descriptors) (t : List File) (f fd : ℕ)
    → Agrees other ofile t
    → f < length t
    → fd < length ofile
    → get_or ofile fd none ≡ none
    → Agrees other (set ofile fd (some f)) (set_ref f ((file_at t f).ref + 1) t)
dup-Agrees other ofile t f fd agrees inside lt free g =
    let before : is g (get_or ofile fd none) ≡ 0 = ap (is g) free in
    ground (
      arith,
      agrees g,
      agrees f,
      before,
      uses-set g ofile fd (some f) lt,
      ref-set t f g (record (file_at t f) { ref = (file_at t f).ref + 1 }) inside,
    )

pub close-Agrees :
    (other : ℕ → ℕ) (ofile : Descriptors) (t : List File) (f fd : ℕ) (v : File)
    → Agrees other ofile t
    → f < length t
    → get_or ofile fd none ≡ some f
    → v.ref + 1 ≡ (file_at t f).ref
    → Agrees other (set ofile fd none) (set t f v)
close-Agrees other ofile t f fd v agrees inside open_on less g =
    let before : is g (get_or ofile fd none) ≡ is g (some f) = ap (is g) open_on in
    let (lt, one) = uses-some ofile fd f open_on in
    ground
      (arith, agrees g, agrees f, before, less, uses-set g ofile fd none lt, ref-set t f g v inside)
