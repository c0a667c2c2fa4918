-- ===== src/File/Descriptors/Calls.antt =====
-- sys_dup and sys_close of Xv6-Threads/src/sysfile.c keep the reference counts of the open files.
use os_wsl.Prelude.{
  ℕ, ◌+◌, ◌<◌, ◌≡◌, ◌≢◌, ◌⊎◌, refl, inl, inr, true, false, Option, none, some, List, arith, length,
  get_or, set, u32, ltb, minus_one, if◌then◌else◌, int_lt, Bool-cases,
}
use os_wsl.File.{File, fd_none, file_at, set_ref, filedup, Release, kept, release_of, fileclose}
use os_wsl.File.References.{ref-inside}
use os_wsl.File.Descriptors.{
  Descriptors, argfd, fdalloc, Dupped, placed, dup_of, sys_dup, Closed, released, close_of,
  sys_close,
}
use os_wsl.File.Descriptors.Counts.{
  uses, uses-some, Agrees, Opens, argfd-Opens, Placed, fdalloc-Placed, dup-Agrees, close-Agrees,
}

-- The answer -1, with nothing changed.
abbrev Refused : ℕ → Descriptors → Descriptors → List File → List File → Type 0
Refused r ofile ofile' t t' = (r ≡ minus_one) × (ofile' ≡ ofile) × (t' ≡ t)

-- Entry `r`, the first that was free, is open on the file of the argument.
abbrev AlsoOpen : Option ℕ → ℕ → Descriptors → Descriptors → Type 0
AlsoOpen arg r ofile ofile' =
    (fd : ℕ) × (f : ℕ) × ((argfd arg ofile ≡ some (fd, f))
      × (r < length ofile)
      × (get_or ofile r none ≡ none)
      × ((k : ℕ) → k < r → get_or ofile k none ≢ none)
      × (ofile' ≡ set ofile r (some f)))

abbrev pub Dups : (ℕ → ℕ) → Option ℕ → Descriptors → List File → Dupped → Type 0
Dups other arg ofile t none = ⊥
Dups other arg ofile t (some (r, ofile', t')) =
    Agrees other ofile' t' × (Refused r ofile ofile' t t' ⊎ AlsoOpen arg r ofile ofile')

filedup-some :
    (t : List File) (f : ℕ)
    → 0 < (file_at t f).ref
    → (file_at t f).ref < 2147483647
    → filedup f t ≡ some (set_ref f ((file_at t f).ref + 1) t)
unfolding filedup
filedup-some t f pos small =
    let live : int_lt (file_at t f).ref 1 ≡ false = ground arith in
    let next : u32 ((file_at t f).ref + 1) ≡ (file_at t f).ref + 1 = omega arith in
    rw live (rw next refl)

-- Where the reference counts agree with the descriptors and are below 2 ^ 31 - 1, `sys_dup` does not panic
-- and they agree afterwards. It returns -1 and changes nothing, or opens the first free descriptor on the
-- file of its argument.
pub sys_dup_lem :
    (other : ℕ → ℕ) (arg : Option ℕ) (ofile : Descriptors) (t : List File)
    → Agrees other ofile t
    → ((f : ℕ) → (file_at t f).ref < 2147483647)
    → Dups other arg ofile t (sys_dup arg ofile t)
unfolding sys_dup
sys_dup_lem other arg ofile t agrees small = found (argfd arg ofile) refl (argfd-Opens arg ofile)
  where
    place :
        (fd f : ℕ) (o : Option (ℕ × Descriptors))
        → argfd arg ofile ≡ some (fd, f)
        → get_or ofile fd none ≡ some f
        → Placed f ofile o
        → Dups other arg ofile t (placed f ofile t o)
    place fd f none e g p = (agrees, inl (refl, refl, refl))
    place fd f (some (r, ofile')) e g (lt, free, below, same) =
        let (inside, one) = uses-some ofile fd f g in
        let pos : 0 < (file_at t f).ref = omega (arith, agrees f) in
        rw (filedup-some t f pos (small f)) (
          rw same (
            dup-Agrees other ofile t f r agrees (ref-inside t f pos) lt free,
            inr (fd, f, (e, lt, free, below, refl)),
          ))

    found :
        (o : Option (ℕ × ℕ))
        → argfd arg ofile ≡ o
        → Opens ofile o
        → Dups other arg ofile t (dup_of ofile t o)
    found none e g = (agrees, inl (refl, refl, refl))
    found (some (fd, f)) e g = place fd f (fdalloc f ofile) e g (fdalloc-Placed f ofile)

-- The descriptor of the argument is free, and its file is released by the last close only.
abbrev NotOpen : (ℕ → ℕ) → Option ℕ → ℕ → Descriptors → Descriptors → List File → Release → Type 0
NotOpen other arg r ofile ofile' t free =
    (fd : ℕ) × (f : ℕ) × ((argfd arg ofile ≡ some (fd, f))
      × (r ≡ 0)
      × (ofile' ≡ set ofile fd none)
      × (free ≡ (if ltb 1 (uses f ofile + other f) then kept else release_of (file_at t f))))

abbrev pub Closes : (ℕ → ℕ) → Option ℕ → Descriptors → List File → Closed → Type 0
Closes other arg ofile t none = ⊥
Closes other arg ofile t (some (r, ofile', t', free)) =
    Agrees other ofile' t' × (Refused r ofile ofile' t t' ⊎ NotOpen other arg r ofile ofile' t free)

-- Where the reference counts agree with the descriptors and are below 2 ^ 31 - 1, `sys_close` does not
-- panic and they agree afterwards. It returns -1 and changes nothing, or frees the descriptor of its
-- argument, and releases what the file stands for if that was the last reference.
pub sys_close_lem :
    (other : ℕ → ℕ) (arg : Option ℕ) (ofile : Descriptors) (t : List File)
    → Agrees other ofile t
    → ((f : ℕ) → (file_at t f).ref < 2147483647)
    → Closes other arg ofile t (sys_close arg ofile t)
unfolding sys_close fileclose
sys_close_lem other arg ofile t agrees small = found (argfd arg ofile) refl (argfd-Opens arg ofile)
  where
    closed :
        (fd f : ℕ)
        → argfd arg ofile ≡ some (fd, f)
        → get_or ofile fd none ≡ some f
        → Closes other arg ofile t (released (set ofile fd none) (fileclose f t))
    closed fd f e g =
        let (inside, one) = uses-some ofile fd f g in
        let pos : 0 < (file_at t f).ref = omega (arith, agrees f) in
        let max = small f in
        let live : int_lt (file_at t f).ref 1 ≡ false = ground arith in
        let file = file_at t f in
        elim (Bool-cases (ltb 1 (uses f ofile + other f))) [
          | inl many ↦
              let left : int_lt 0 (u32 ((file_at t f).ref + 4294967295)) ≡ true =
                ground (arith, agrees f) in
              let one_less : u32 ((file_at t f).ref + 4294967295) + 1 ≡ (file_at t f).ref =
                omega arith in
              rw live (
                rw left (
                  close-Agrees other ofile t f fd
                      (record file { ref = u32 (file.ref + 4294967295) }) agrees
                      (ref-inside t f pos) g one_less,
                  inr (fd, f, (e, refl, refl, rw many refl)),
                ))
          | inr last ↦
              let left : int_lt 0 (u32 ((file_at t f).ref + 4294967295)) ≡ false =
                ground (arith, agrees f) in
              let one_less : 1 ≡ (file_at t f).ref = ground (arith, agrees f) in
              rw live (
                rw left (
                  close-Agrees other ofile t f fd (record file { ref = 0; type = fd_none }) agrees
                      (ref-inside t f pos) g one_less,
                  inr (fd, f, (e, refl, refl, rw last refl)),
                ))
        ]

    found :
        (o : Option (ℕ × ℕ))
        → argfd arg ofile ≡ o
        → Opens ofile o
        → Closes other arg ofile t (close_of ofile t o)
    found none e g = (agrees, inl (refl, refl, refl))
    found (some (fd, f)) e g = closed fd f e g
