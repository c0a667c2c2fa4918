-- ===== src/Fs/Names/Elements.antt =====
-- `skipelem` of Xv6-Threads/src/fs.c takes a path apart at its slashes.
use os_wsl.Prelude.{
  ℕ, zero, suc, ◌+◌, ◌-◌, ◌<◌, ◌≤◌, ◌≡◌, refl, sym, ap, ap₂, ◌∙◌, inl, inr, Bool, true, false, not,
  ◌&&◌, leb, ltb, min, take, get_or, Option, none, some, List, [], ◌∷◌, arith, length, ◌==◌,
  if◌then◌else◌, Bool-cases,
}
use os_wsl.String.Comparing.{text}
use os_wsl.Fs.Content.{Memory}
use os_wsl.Fs.Names.{
  slash, skip_slashes, element, take_element, next_element, put_name, copied_name, skipelem,
}

-- The names that `namex` goes through, each as it reads at `name`, on fuel.
abbrev pub names : ℕ → ℕ → List ℕ → Memory → List (List ℕ)
names zero name path mem = []
names (suc fuel) name path mem = elim (skipelem name path mem) [
  | none ↦ []
  | some (rest, mem') ↦ text name 14 mem' ∷ names fuel name rest mem'
]

abbrev onto : ℕ → List (List ℕ) → List (List ℕ)
onto c [] = (c ∷ []) ∷ []
onto c (p ∷ ps) = (c ∷ p) ∷ ps

-- What stands between the slashes of a path, and before the first and behind the last.
abbrev pub pieces : List ℕ → List (List ℕ)
pieces [] = [] ∷ []
pieces (c ∷ cs) = let rest = pieces cs in if c == slash then [] ∷ rest else onto c rest

abbrev pub nonempty : List (List ℕ) → List (List ℕ)
nonempty [] = []
nonempty ([] ∷ ps) = nonempty ps
nonempty ((c ∷ cs) ∷ ps) = (c ∷ cs) ∷ nonempty ps

skip_slashes-pieces : (p : List ℕ) → nonempty (pieces (skip_slashes p)) ≡ nonempty (pieces p)
skip_slashes-pieces [] = refl
skip_slashes-pieces (c ∷ cs) = elim (Bool-cases (c == slash)) [
  | inl e ↦ rw e (skip_slashes-pieces cs)
  | inr e ↦ rw e (rw e refl)
]

-- The pieces behind an element, whose rest is empty or begins with a slash.
abbrev behind : List ℕ → List (List ℕ)
behind [] = []
behind (c ∷ cs) = pieces cs

element-pieces : (p : List ℕ) → pieces p ≡ (element p).0 ∷ behind (element p).1
element-pieces [] = refl
element-pieces (c ∷ cs) = elim (Bool-cases (c == slash)) [
  | inl e ↦ rw e refl
  | inr e ↦ rw e (ap (onto c) (element-pieces cs))
]

behind-pieces : (p : List ℕ) → nonempty (behind (element p).1) ≡ nonempty (pieces (element p).1)
behind-pieces [] = refl
behind-pieces (c ∷ cs) = elim (Bool-cases (c == slash)) [
  | inl e ↦ rw e (rw e refl)
  | inr e ↦ rw e (behind-pieces cs)
]

element-shorter : (p : List ℕ) → length (element p).1 ≤ length p
element-shorter [] = omega arith
element-shorter (c ∷ cs) = elim (Bool-cases (c == slash)) [
  | inl e ↦ rw e (omega arith)
  | inr e ↦ rw e (omega (arith, element-shorter cs))
]

skip_slashes-shorter : (p : List ℕ) → length (skip_slashes p) ≤ length p
skip_slashes-shorter [] = omega arith
skip_slashes-shorter (c ∷ cs) = elim (Bool-cases (c == slash)) [
  | inl e ↦ rw e (omega (arith, skip_slashes-shorter cs))
  | inr e ↦ rw e (omega arith)
]

-- What skipping slashes leaves does not begin with one.
abbrev Plain : List ℕ → Type 0
Plain [] = Unit
Plain (c ∷ cs) = (c == slash) ≡ false

skip_slashes-Plain : (p : List ℕ) → Plain (skip_slashes p)
skip_slashes-Plain [] = tt
skip_slashes-Plain (c ∷ cs) = elim (Bool-cases (c == slash)) [
  | inl e ↦ rw e (skip_slashes-Plain cs)
  | inr e ↦ rw e e
]

abbrev pub Takes : List ℕ → Option (List ℕ × List ℕ) → Type 0
Takes p none = nonempty (pieces p) ≡ []
Takes p (some (e, rest)) =
    (nonempty (pieces p) ≡ e ∷ nonempty (pieces rest)) × (suc (length rest) ≤ length p)

take_element-Takes : (p : List ℕ) → Plain p → Takes p (take_element p)
take_element-Takes [] h = refl
take_element-Takes (c ∷ cs) h = rw h (
  ap nonempty (ap (onto c) (element-pieces cs))
      ∙ ap (λ l. (c ∷ (element cs).0) ∷ l)
          (behind-pieces cs ∙ sym (skip_slashes-pieces (element cs).1)),
  omega (arith, element-shorter cs, skip_slashes-shorter (element cs).1),
)

pub next_element-Takes : (p : List ℕ) → Takes p (next_element p)
unfolding next_element
next_element-Takes p =
    moved (take_element (skip_slashes p))
      (take_element-Takes (skip_slashes p) (skip_slashes-Plain p))
  where
    moved : (o : Option (List ℕ × List ℕ)) → Takes (skip_slashes p) o → Takes p o
    moved none h = sym (skip_slashes-pieces p) ∙ h
    moved (some (e, rest)) (h, s) =
        (sym (skip_slashes-pieces p) ∙ h, omega (arith, skip_slashes-shorter p))

-- A path has no NUL.
abbrev pub no_nul : List ℕ → Bool
no_nul [] = true
no_nul (c ∷ cs) = not (c == 0) && no_nul cs

abbrev NoNuls : Option (List ℕ × List ℕ) → Type 0
NoNuls none = Unit
NoNuls (some (e, rest)) = (no_nul e ≡ true) × (no_nul rest ≡ true)

skip_slashes-no_nul : (p : List ℕ) → no_nul p ≡ true → no_nul (skip_slashes p) ≡ true
skip_slashes-no_nul [] h = refl
skip_slashes-no_nul (c ∷ cs) h =
    let rest : no_nul cs ≡ true = ground arith in
    elim (Bool-cases (c == slash)) [ inl e ↦ rw e (skip_slashes-no_nul cs rest) | inr e ↦ rw e h ]

element-no_nul :
    (p : List ℕ) → no_nul p ≡ true → (no_nul (element p).0 ≡ true) × (no_nul (element p).1 ≡ true)
element-no_nul [] h = (refl, refl)
element-no_nul (c ∷ cs) h =
    let rest : no_nul cs ≡ true = ground arith in
    let first : not (c == 0) ≡ true = ground arith in
    let (a, b) = element-no_nul cs rest in
    elim (Bool-cases (c == slash)) [ inl e ↦ rw e (refl, h) | inr e ↦ rw e (rw first a, b) ]

next_element-NoNuls : (p : List ℕ) → no_nul p ≡ true → NoNuls (next_element p)
unfolding next_element
next_element-NoNuls p h = taken (skip_slashes p) (skip_slashes-no_nul p h)
  where
    taken : (q : List ℕ) → no_nul q ≡ true → NoNuls (take_element q)
    taken [] g = tt
    taken (c ∷ cs) g =
        let (a, b) = element-no_nul (c ∷ cs) g in (a, skip_slashes-no_nul (element (c ∷ cs)).1 b)

-- What memory holds as a name of at most `n` bytes.
text-take :
    (n p : ℕ) (e : List ℕ) (m : Memory)
    → ((i : ℕ) → i < n → i < length e → m (p + i) ≡ get_or e i 0)
    → (length e < n → m (p + length e) ≡ 0)
    → no_nul e ≡ true
    → text p n m ≡ take n e
text-take zero p e m copied ends plain = refl
text-take (suc n) p [] m copied ends plain =
    let start : p ≡ p + 0 = omega arith in
    let end : m p ≡ 0 = ap m start ∙ ends (omega arith) in
    let stop : (m p == 0) ≡ true = ground arith in rw stop refl
text-take (suc n) p (c ∷ e) m copied ends plain =
    let start : p ≡ p + 0 = omega arith in
    let first : m p ≡ c = ap m start ∙ copied 0 (omega arith) (omega arith) in
    let rest : no_nul e ≡ true = ground arith in
    let on : (m p == 0) ≡ false = ground arith in
    let later =
      text-take n (p + 1) e m
        (λ i li le.
          let next : p + 1 + i ≡ p + suc i = omega arith in
          ap m next ∙ copied (suc i) (omega arith) (omega arith))
        (λ lt.
          let next : p + 1 + length e ≡ p + length (c ∷ e) = omega arith in
          ap m next ∙ ends (omega arith))
        rest in
    rw on (ap₂ (λ (d : ℕ) (ds : List ℕ). d ∷ ds) first later)

text-put_name :
    (name : ℕ) (e : List ℕ) (mem : Memory)
    → no_nul e ≡ true
    → text name 14 (put_name name e mem) ≡ take 14 e
unfolding put_name
text-put_name name e mem plain = text-take 14 name e (put_name name e mem) copied ends plain
  where
    copied : (i : ℕ) → i < 14 → i < length e → put_name name e mem (name + i) ≡ get_or e i 0
    copied i li le =
        let inside : (leb name (name + i) && ltb (name + i) (name + min (length e) 14)) ≡ true =
          ground arith in
        let back : name + i - name ≡ i = omega arith in
        rw inside (ap (λ (j : ℕ). get_or e j 0) back)

    ends : length e < 14 → put_name name e mem (name + length e) ≡ 0
    ends lt =
        let outside : (leb name (name + length e)
              && ltb (name + length e) (name + min (length e) 14))
            ≡ false =
          ground arith in
        let nul : (ltb (length e) 14 && (name + length e == name + length e)) ≡ true =
          ground arith in
        rw outside (rw nul refl)

-- At most 14 bytes of each.
abbrev pub cut_each : List (List ℕ) → List (List ℕ)
cut_each [] = []
cut_each (p ∷ ps) = take 14 p ∷ cut_each ps

names-pieces :
    (fuel name : ℕ) (p : List ℕ) (mem : Memory)
    → length p < fuel
    → no_nul p ≡ true
    → names fuel name p mem ≡ cut_each (nonempty (pieces p))
unfolding skipelem
names-pieces zero name p mem lt plain = absurd (omega arith)
names-pieces (suc fuel) name p mem lt plain =
    step (next_element p) (next_element-Takes p) (next_element-NoNuls p plain)
      (λ q m. names-pieces fuel name q m)
  where
    step :
        (o : Option (List ℕ × List ℕ))
        → Takes p o
        → NoNuls o
        → ((q : List ℕ) (m : Memory)
            → length q < fuel
            → no_nul q ≡ true
            → names fuel name q m ≡ cut_each (nonempty (pieces q)))
        → elim (copied_name name mem o) [
          | none ↦ []
          | some (rest, mem') ↦ text name 14 mem' ∷ names fuel name rest mem'
        ]
          ≡ cut_each (nonempty (pieces p))
    step none h n later = ap cut_each (sym h)
    step (some (e, rest)) (h, s) (ne, nr) later =
        ap₂ (λ (t : List ℕ) (ts : List (List ℕ)). t ∷ ts) (text-put_name name e mem ne)
          (later rest (put_name name e mem) (omega arith) nr)
        ∙ ap cut_each (sym h)

-- For every path, repeated calls of `skipelem` leave at `name`, one after the other, the pieces between its
-- slashes that are not empty, each cut at DIRSIZ (14) bytes, and stop within one call more than the path has
-- bytes. (None of the bytes is a NUL.)
pub skipelem-names :
    (name : ℕ) (path : List ℕ) (mem : Memory)
    → no_nul path ≡ true
    → names (length path + 1) name path mem ≡ cut_each (nonempty (pieces path))
skipelem-names name path mem plain =
    names-pieces (length path + 1) name path mem (omega arith) plain
