-- ===== src/File/References.antt =====
-- The reference counts of the open files of Xv6-Threads/src/file.c.
use mathlib.Core.Path.{subst}
use os_wsl.Prelude.{
  remove, length-remove, occurs, remove-occurs, ℕ, zero, suc, ◌+◌, ◌-◌, ◌≤◌, ◌<◌, ◌≡◌, refl, sym,
  ◌∙◌, inl, inr, true, false, Option, none, some, List, [], ◌∷◌, arith, length, get_elem?, set,
  replicate, u32, ltb, ◌==◌, if◌then◌else◌, int_lt, Bool-cases, Option-cases,
}
use os_wsl.File.{
  File, FileType, fd_none, fd_pipe, fd_inode, empty_file, file_at, find_free, set_ref, filealloc,
  filedup, Release, kept, nothing, closes_pipe, puts_inode, release_of, fileclose,
}

-- The file table with the references that descriptors and the kernel hold, over any sequence of calls
-- in which a file is duplicated and closed only by a holder, and there are never more than 2 ^ 31 - 1
-- references.
pub data Reach : List File → List ℕ → Type 0 where
  boots : Reach (replicate 100 empty_file) []
  allocates :
      {t t' : List File} {held : List ℕ} (f : ℕ)
      → Reach t held
      → length held < 2147483647
      → filealloc t ≡ some (f, t')
      → Reach t' (f ∷ held)
  -- The holder of a file says what it is for, as sys_open and pipealloc do.
  sets :
      {t : List File} {held : List ℕ} (f i : ℕ) (v : File)
      → Reach t held
      → get_elem? held i ≡ some f
      → Reach (set t f (record v { ref = (file_at t f).ref })) held
  dups :
      {t t' : List File} {held : List ℕ} (f i : ℕ)
      → Reach t held
      → get_elem? held i ≡ some f
      → length held < 2147483647
      → filedup f t ≡ some t'
      → Reach t' (f ∷ held)
  closes :
      {t t' : List File} {held : List ℕ} (f i : ℕ) (r : Release)
      → Reach t held
      → get_elem? held i ≡ some f
      → fileclose f t ≡ some (r, t')
      → Reach t' (remove held i)

-- A file has as many references as it has holders.
pub record Counted (t : List File) (held : List ℕ) : Type 0 where
  pub refs : (f : ℕ) → occurs f held ≡ (file_at t f).ref
  pub few : length held ≤ 2147483647

pub ref-set :
    (t : List File) (i j : ℕ) (v : File)
    → i < length t
    → (file_at (set t i v) j).ref ≡ (if i == j then v.ref else (file_at t j).ref)
ref-set [] i j v h = elim h [ ]
ref-set (x ∷ t) zero zero v h = ground arith
ref-set (x ∷ t) zero (suc j) v h = ground arith
ref-set (x ∷ t) (suc i) zero v h = ground arith
ref-set (x ∷ t) (suc i) (suc j) v h = ground (arith, ref-set t i j v)

pub ref-inside : (t : List File) (f : ℕ) → 0 < (file_at t f).ref → f < length t
ref-inside [] f h = absurd (omega arith)
ref-inside (x ∷ t) zero h = omega arith
ref-inside (x ∷ t) (suc f) h = omega (arith, ref-inside t f h)

occurs-le : (f : ℕ) (held : List ℕ) → occurs f held ≤ length held
occurs-le f [] = omega arith
occurs-le f (h ∷ held) = ground (arith, occurs-le f held)

find_free-some :
    (t : List File) (f : ℕ) → find_free t ≡ some f → (f < length t) × ((file_at t f).ref ≡ 0)
unfolding find_free
find_free-some [] f h = cc
find_free-some (x ∷ t) f h = elim (Bool-cases (x.ref == 0)) [
  | inl e ↦
      let found : some 0 ≡ some f = rw e at h in
      let here : 0 ≡ f = cc in rw (sym here) (omega arith, ground arith)
  | inr e ↦ elim (Option-cases (find_free t)) [
    | inl z ↦ let bad : none ≡ some f = rw (e, z) at h in absurd cc
    | inr (i, z) ↦
        let found : some (suc i) ≡ some f = rw (e, z) at h in
        let here : suc i ≡ f = cc in
        let (lt, free) = find_free-some t i z in rw (sym here) (omega arith, free)
  ]
]

held-once : (held : List ℕ) (i f : ℕ) → get_elem? held i ≡ some f → 0 < occurs f held
held-once held i f h =
    let self : (f == f) ≡ true = ground arith in ground (arith, remove-occurs f f i held h, self)

close_held :
    (t : List File) (held : List ℕ) (f i : ℕ)
    → Counted t held
    → get_elem? held i ≡ some f
    → fileclose f t ≡ (
        if ltb 1 (occurs f held)
        then some (kept, set_ref f (occurs f held - 1) t)
        else some
            (release_of (file_at t f), set t f (record (file_at t f) { ref = 0; type = fd_none })))
unfolding fileclose
close_held t held f i c at =
    let same = c.refs f in
    let some_held = held-once held i f at in
    let bound = occurs-le f held in
    let live : int_lt (file_at t f).ref 1 ≡ false = ground (arith, same, some_held, bound, c.few) in
    let left : u32 ((file_at t f).ref + 4294967295) ≡ occurs f held - 1 =
      omega (arith, same, some_held, bound, c.few) in
    let test : int_lt 0 (occurs f held - 1) ≡ ltb 1 (occurs f held) =
      ground (arith, bound, c.few) in
    rw live (rw left (rw test))

alloc-Counted :
    (t : List File) (held : List ℕ) (f : ℕ) (t' : List File)
    → Counted t held
    → length held < 2147483647
    → filealloc t ≡ some (f, t')
    → Counted t' (f ∷ held)
unfolding filealloc
alloc-Counted t held f t' c few h = elim (Option-cases (find_free t)) [
  | inl z ↦ let bad : none ≡ some (f, t') = rw (z, filealloc) at h in absurd cc
  | inr (i, z) ↦
      let (lt, free) = find_free-some t i z in
      let found : some (i, set_ref i 1 t) ≡ some (f, t') = rw (z, filealloc) at h in
      let here : i ≡ f = cc in
      let table : set_ref i 1 t ≡ t' = cc in
      subst (λ u. Counted u (f ∷ held)) table
        (subst (λ g. Counted (set_ref i 1 t) (g ∷ held)) here
          (record {
            refs =
                λ j. ground (arith, c.refs j, ref-set t i j (record (file_at t i) { ref = 1 }) lt);
            few = omega arith;
          }))
]

set-Counted :
    (t : List File) (held : List ℕ) (f i : ℕ) (v : File)
    → Counted t held
    → get_elem? held i ≡ some f
    → Counted (set t f (record v { ref = (file_at t f).ref })) held
set-Counted t held f i v c at =
    let some_held = held-once held i f at in
    let lt : f < length t = ref-inside t f (omega (arith, c.refs f)) in
    record {
      refs = λ j.
          ground
            (arith, c.refs j, c.refs f, ref-set t f j (record v { ref = (file_at t f).ref }) lt);
      few = c.few;
    }

dup-Counted :
    (t : List File) (held : List ℕ) (f i : ℕ) (t' : List File)
    → Counted t held
    → get_elem? held i ≡ some f
    → length held < 2147483647
    → filedup f t ≡ some t'
    → Counted t' (f ∷ held)
unfolding filedup
dup-Counted t held f i t' c at few h = elim (Bool-cases (int_lt (file_at t f).ref 1)) [
  | inl z ↦ let bad : none ≡ some t' = rw z at h in absurd cc
  | inr z ↦
      let found : some (set_ref f (u32 ((file_at t f).ref + 1)) t) ≡ some t' = rw z at h in
      let table : set_ref f (u32 ((file_at t f).ref + 1)) t ≡ t' = cc in
      let some_held = held-once held i f at in
      let lt : f < length t = ref-inside t f (omega (arith, c.refs f)) in
      let bound = occurs-le f held in
      subst (λ u. Counted u (f ∷ held)) table
        (record {
          refs = λ j. ground (
            arith,
            c.refs j,
            c.refs f,
            bound,
            ref-set t f j (record (file_at t f) { ref = u32 ((file_at t f).ref + 1) }) lt,
          );
          few = omega arith;
        })
]

close-Counted :
    (t : List File) (held : List ℕ) (f i : ℕ) (r : Release) (t' : List File)
    → Counted t held
    → get_elem? held i ≡ some f
    → fileclose f t ≡ some (r, t')
    → Counted t' (remove held i)
close-Counted t held f i r t' c at h =
    let some_held = held-once held i f at in
    let lt : f < length t = ref-inside t f (omega (arith, c.refs f)) in
    let fewer : length (remove held i) ≤ 2147483647 =
      omega (arith, c.few, length-remove held i f at) in
    elim (Bool-cases (ltb 1 (occurs f held))) [
      | inl z ↦
          let done : fileclose f t ≡ some (kept, set_ref f (occurs f held - 1) t) =
            close_held t held f i c at ∙ rw z in
          let table : set_ref f (occurs f held - 1) t ≡ t' = cc in
          subst (λ u. Counted u (remove held i)) table
            (record {
              refs = λ j. ground (
                arith,
                c.refs j,
                remove-occurs j f i held at,
                ref-set t f j (record (file_at t f) { ref = occurs f held - 1 }) lt,
              );
              few = fewer;
            })
      | inr z ↦
          let done : fileclose f t
              ≡ some (
                release_of (file_at t f),
                set t f (record (file_at t f) { ref = 0; type = fd_none }),
              ) =
            close_held t held f i c at ∙ rw z in
          let table : set t f (record (file_at t f) { ref = 0; type = fd_none }) ≡ t' = cc in
          subst (λ u. Counted u (remove held i)) table
            (record {
              refs = λ j. ground (
                arith,
                c.refs j,
                remove-occurs j f i held at,
                ref-set t f j (record (file_at t f) { ref = 0; type = fd_none }) lt,
              );
              few = fewer;
            })
    ]

free_at : (n j : ℕ) → (file_at (replicate n empty_file) j).ref ≡ 0
free_at zero j = refl
free_at (suc n) zero = refl
free_at (suc n) (suc j) = free_at n j

Reach-Counted : {t : List File} {held : List ℕ} → Reach t held → Counted t held
Reach-Counted boots = record { refs = λ f. sym (free_at 100 f); few = omega arith }
Reach-Counted (allocates {t} {t'} {held} f r few e) =
    alloc-Counted t held f t' (Reach-Counted r) few e
Reach-Counted (sets {t} {held} f i v r at) = set-Counted t held f i v (Reach-Counted r) at
Reach-Counted (dups {t} {t'} {held} f i r at few e) =
    dup-Counted t held f i t' (Reach-Counted r) at few e
Reach-Counted (closes {t} {t'} {held} f i x r at e) =
    close-Counted t held f i x t' (Reach-Counted r) at e

-- What the last close of a file has to release: the end of its pipe, or its inode.
pub data Releases (ff : File) : Release → Type 0 where
  none_left : ff.type ≡ fd_none → Releases ff nothing
  its_pipe : ff.type ≡ fd_pipe → Releases ff (closes_pipe ff.pipe ff.writable)
  its_inode : ff.type ≡ fd_inode → Releases ff (puts_inode ff.ip)

release_of-Releases : (ff : File) → Releases ff (release_of ff)
release_of-Releases ff = by_type ff.type refl
  where
    by_type :
        (k : FileType)
        → ff.type ≡ k
        → Releases ff (elim k [
          | fd_none ↦ nothing
          | fd_pipe ↦ closes_pipe ff.pipe ff.writable
          | fd_inode ↦ puts_inode ff.ip
        ])
    by_type fd_none e = none_left e
    by_type fd_pipe e = its_pipe e
    by_type fd_inode e = its_inode e

-- A close that is the last one, or not.
abbrev pub Closes : List File → List ℕ → ℕ → Option (Release × List File) → Type 0
Closes t held f none = ⊥
Closes t held f (some (r, t')) =
    if ltb 1 (occurs f held)
    then (r ≡ kept) × (t' ≡ set_ref f (occurs f held - 1) t)
    else Releases (file_at t f) r
      × (t' ≡ set t f (record (file_at t f) { ref = 0; type = fd_none }))

-- Over any sequence of calls by holders, who also say what a file is, `fileclose` by a holder never
-- panics: while others hold the file it only drops the count, and the close by the last holder frees the
-- slot and releases the end of the pipe or the inode that the file stood for.
pub fileclose-last :
    {t : List File} {held : List ℕ} (f i : ℕ)
    → Reach t held
    → get_elem? held i ≡ some f
    → Closes t held f (fileclose f t)
fileclose-last {t} {held} f i r at =
    rw (close_held t held f i (Reach-Counted r) at) (elim (Bool-cases (ltb 1 (occurs f held))) [
      | inl e ↦ rw e (rw e (refl, refl))
      | inr e ↦ rw e (rw e (release_of-Releases (file_at t f), refl))
    ])
