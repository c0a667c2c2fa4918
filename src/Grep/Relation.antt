-- ===== src/Grep/Relation.antt =====
-- What an expression of Xv6-Threads/src/grep.c means, with no search order in it.
use mathlib.Core.Path.{subst}
use os_wsl.Prelude.{
  ℕ, ◌≡◌, refl, sym, ◌↔◌, ◌⊎◌, inl, inr, Bool, true, false, ◌&&◌, ◌||◌, List, [], ◌∷◌, arith, ◌==◌,
  if◌then◌else◌, Bool-cases,
}
use os_wsl.Grep.{
  dollar, asterisk, dot, caret, empty, starred, matchstar, match_one, matchhere, match_from, match,
}

-- `c` of an expression stands for the byte `x`.
abbrev pub Stands : ℕ → ℕ → Type 0
Stands c x = (c ≡ dot) ⊎ (c ≡ x)

-- The expression matches a beginning of the text.
pub data Here : List ℕ → List ℕ → Type 0 where
  done : {text : List ℕ} → Here [] text
  at_end : Here (dollar ∷ []) []
  one :
      {c x : ℕ} {re text : List ℕ}
      → starred re ≡ false
      → (c == dollar && empty re) ≡ false
      → Stands c x
      → Here re text
      → Here (c ∷ re) (x ∷ text)
  leave : {c : ℕ} {re text : List ℕ} → Here re text → Here (c ∷ asterisk ∷ re) text
  repeat :
      {c x : ℕ} {re text : List ℕ}
      → Stands c x
      → Here (c ∷ asterisk ∷ re) text
      → Here (c ∷ asterisk ∷ re) (x ∷ text)

-- The expression matches somewhere in the text.
pub data Somewhere (re : List ℕ) : List ℕ → Type 0 where
  now : {text : List ℕ} → Here re text → Somewhere re text
  later : {x : ℕ} {text : List ℕ} → Somewhere re text → Somewhere re (x ∷ text)

-- `^` holds an expression to the beginning of the text.
abbrev pub Found : List ℕ → List ℕ → Type 0
Found [] text = Somewhere [] text
Found (c ∷ re) text = if c == caret then Here re text else Somewhere (c ∷ re) text

Stands-of :
    (c x : ℕ) (a : Bool)
    → (if x == c || c == dot then a else false) ≡ true
    → Stands c x × (a ≡ true)
Stands-of c x a h = grind arith

star-Here :
    (re : List ℕ) (c : ℕ) (text : List ℕ)
    → ((t : List ℕ) → matchhere re t ≡ true → Here re t)
    → matchstar (matchhere re) c text ≡ true
    → Here (c ∷ asterisk ∷ re) text
unfolding matchstar
star-Here re c [] ih h = leave (ih [] h)
star-Here re c (x ∷ text) ih h = elim (Bool-cases (matchhere re (x ∷ text))) [
  | inl e ↦ leave (ih (x ∷ text) e)
  | inr e ↦
      let more : (if x == c || c == dot then matchstar (matchhere re) c text else false) ≡ true =
        rw e at h in
      let (s, rest) = Stands-of c x (matchstar (matchhere re) c text) more in
      repeat s (star-Here re c text ih rest)
]

match_one-Here :
    (c : ℕ) (re text : List ℕ)
    → starred re ≡ false
    → (c == dollar && empty re) ≡ false
    → ((t : List ℕ) → matchhere re t ≡ true → Here re t)
    → match_one (matchhere re) c text ≡ true
    → Here (c ∷ re) text
unfolding match_one
match_one-Here c re [] plain inner ih h = let no : false ≡ true = h in absurd (ground arith)
match_one-Here c re (x ∷ text) plain inner ih h = elim (Bool-cases (c == dot || c == x)) [
  | inl e ↦
      let s : Stands c x = ground arith in
      let rest : matchhere re text ≡ true = rw e at h in one plain inner s (ih text rest)
  | inr e ↦ let no : false ≡ true = rw e at h in absurd (ground arith)
]

matchhere-Here : (re text : List ℕ) → matchhere re text ≡ true → Here re text
unfolding matchhere match_one
matchhere-Here [] text h = done
matchhere-Here (c ∷ []) [] h = elim (Bool-cases (c == dollar)) [
  | inl e ↦ let this : c ≡ dollar = ground arith in subst (λ k. Here (k ∷ []) []) (sym this) at_end
  | inr e ↦ let no : false ≡ true = rw e at h in absurd (ground arith)
]
matchhere-Here (c ∷ []) (x ∷ text) h = elim (Bool-cases (c == dollar)) [
  | inl e ↦ let no : false ≡ true = rw e at h in absurd (ground arith)
  | inr e ↦ let s : Stands c x = ground arith in one refl (ground arith) s done
]
matchhere-Here (c ∷ d ∷ re) text h = elim (Bool-cases (d == asterisk)) [
  | inl e ↦
      let this : d ≡ asterisk = ground arith in
      let more : matchstar (matchhere re) c text ≡ true = rw e at h in
      subst (λ k. Here (c ∷ k ∷ re) text) (sym this) (star-Here re c text (matchhere-Here re) more)
  | inr e ↦
      let more : match_one (matchhere (d ∷ re)) c text ≡ true = rw e at h in
      match_one-Here c (d ∷ re) text e (ground arith) (matchhere-Here (d ∷ re)) more
]

-- And back.
repeat-step :
    (re : List ℕ) (c x : ℕ) (text : List ℕ)
    → Stands c x
    → matchstar (matchhere re) c text ≡ true
    → matchstar (matchhere re) c (x ∷ text) ≡ true
unfolding matchstar
repeat-step re c x text s h = elim (Bool-cases (matchhere re (x ∷ text))) [
  | inl e ↦ rw e refl
  | inr e ↦ let this : (x == c || c == dot) ≡ true = ground arith in rw e (rw this h)
]

leave-step :
    (re : List ℕ) (c : ℕ) (text : List ℕ)
    → matchhere re text ≡ true
    → matchstar (matchhere re) c text ≡ true
unfolding matchstar
leave-step re c [] h = h
leave-step re c (x ∷ text) h = rw h refl

one-step :
    (c x : ℕ) (re text : List ℕ)
    → starred re ≡ false
    → (c == dollar && empty re) ≡ false
    → Stands c x
    → matchhere re text ≡ true
    → matchhere (c ∷ re) (x ∷ text) ≡ true
unfolding matchhere match_one
one-step c x [] text plain inner s h = ground arith
one-step c x (d ∷ re) text plain inner s h =
    let this : (c == dot || c == x) ≡ true = ground arith in rw plain (rw this h)

pub Here-matchhere : {re text : List ℕ} → Here re text → matchhere re text ≡ true
unfolding matchhere
Here-matchhere done = refl
Here-matchhere at_end = refl
Here-matchhere (one {c} {x} {re} {text} plain inner s d) =
    one-step c x re text plain inner s (Here-matchhere d)
Here-matchhere (leave {c} {re} {text} d) = leave-step re c text (Here-matchhere d)
Here-matchhere (repeat {c} {x} {re} {text} s d) = repeat-step re c x text s (Here-matchhere d)

match_from-Somewhere : (re text : List ℕ) → match_from re text ≡ true → Somewhere re text
unfolding match_from
match_from-Somewhere re [] h = now (matchhere-Here re [] h)
match_from-Somewhere re (x ∷ text) h = elim (Bool-cases (matchhere re (x ∷ text))) [
  | inl e ↦ now (matchhere-Here re (x ∷ text) e)
  | inr e ↦
      let rest : match_from re text ≡ true = rw e at h in later (match_from-Somewhere re text rest)
]

now-step : (re text : List ℕ) → matchhere re text ≡ true → match_from re text ≡ true
unfolding match_from
now-step re [] h = h
now-step re (x ∷ text) h = rw h refl

later-step :
    (re : List ℕ) (x : ℕ) (text : List ℕ)
    → match_from re text ≡ true
    → match_from re (x ∷ text) ≡ true
unfolding match_from
later-step re x text h = elim (Bool-cases (matchhere re (x ∷ text))) [
  | inl e ↦ rw e refl
  | inr e ↦ rw e h
]

Somewhere-match_from : {re text : List ℕ} → Somewhere re text → match_from re text ≡ true
Somewhere-match_from {re} (now {text} d) = now-step re text (Here-matchhere d)
Somewhere-match_from {re} (later {x} {text} d) = later-step re x text (Somewhere-match_from d)

match_as :
    (c : ℕ) (re text : List ℕ) (b : Bool)
    → ((if b then matchhere re text else match_from (c ∷ re) text) ≡ true)
      ↔ (if b then Here re text else Somewhere (c ∷ re) text)
match_as c re text true = (matchhere-Here re text, Here-matchhere)
match_as c re text false = (match_from-Somewhere (c ∷ re) text, Somewhere-match_from)

-- For every expression and text, `match` answers 1 just when the expression matches: at the beginning of the text if it
-- begins with `^`, and at some place of the text otherwise.
pub match_iff : (re text : List ℕ) → (match re text ≡ true) ↔ Found re text
unfolding match
match_iff [] text = (match_from-Somewhere [] text, Somewhere-match_from)
match_iff (c ∷ re) text = match_as c re text (c == caret)
