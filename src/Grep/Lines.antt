-- ===== src/Grep/Lines.antt =====
-- What Xv6-Threads/src/grep.c writes, whatever the sizes of the reads.
use os_wsl.Prelude.{
  ℕ, ◌≡◌, refl, sym, ap, ◌∙◌, inl, inr, Bool, true, false, not, ◌&&◌, ◌||◌, List, [], ◌∷◌, ◌++◌,
  arith, ◌==◌, if◌then◌else◌, Bool-cases,
}
use mathlib.Core.List.{append-nil, append_assoc}
use os_wsl.Grep.{newline, match, scan, has_newline, grep}

-- Does a text have a newline?
abbrev pub has_nl : List ℕ → Bool
has_nl [] = false
has_nl (c ∷ bs) = c == newline || has_nl bs

-- A text without a NUL.
abbrev pub no_nul : List ℕ → Bool
no_nul [] = true
no_nul (c ∷ bs) = not (c == 0) && no_nul bs

no_nul-has_newline : (bs : List ℕ) → no_nul bs ≡ true → has_newline bs ≡ has_nl bs
no_nul-has_newline [] h = refl
no_nul-has_newline (c ∷ bs) h =
    let rest = no_nul-has_newline bs (ground arith) in ground (arith, rest)

-- The lines of a text that end in a newline, `line` being what comes before the text.
abbrev pub lines : List ℕ → List ℕ → List (List ℕ)
lines line [] = []
lines line (c ∷ bs) =
    let next = lines [] bs in
    let on = lines (line ++ c ∷ []) bs in if c == newline then line ∷ next else on

-- The lines that match, each with its newline.
abbrev pub matching : List ℕ → List (List ℕ) → List ℕ
matching re [] = []
matching re (l ∷ ls) = let rest = matching re ls in if match re l then l ++ newline ∷ rest else rest

-- What is behind the last newline of a text.
abbrev pub tail_of : List ℕ → List ℕ → List ℕ
tail_of line [] = line
tail_of line (c ∷ bs) =
    let next = tail_of [] bs in
    let on = tail_of (line ++ c ∷ []) bs in if c == newline then next else on

scan-lines :
    (re line bs : List ℕ)
    → no_nul bs ≡ true
    → scan re line bs ≡ (matching re (lines line bs), tail_of line bs)
unfolding scan
scan-lines re line [] h = refl
scan-lines re line (c ∷ bs) h =
    let text : (c == 0) ≡ false = ground arith in
    let rest : no_nul bs ≡ true = ground arith in
    elim (Bool-cases (c == newline)) [
      | inl e ↦ rw e (rw (scan-lines re [] bs rest) refl)
      | inr e ↦ rw (e, text) (scan-lines re (line ++ c ∷ []) bs rest)
    ]

lines-append :
    (line bs cs : List ℕ) → lines line (bs ++ cs) ≡ lines line bs ++ lines (tail_of line bs) cs
lines-append line [] cs = refl
lines-append line (c ∷ bs) cs = elim (Bool-cases (c == newline)) [
  | inl e ↦ rw e (ap (λ w. line ∷ w) (lines-append [] bs cs))
  | inr e ↦ rw e (lines-append (line ++ c ∷ []) bs cs)
]

matching-append :
    (re : List ℕ) (ls ms : List (List ℕ))
    → matching re (ls ++ ms) ≡ matching re ls ++ matching re ms
matching-append re [] ms = refl
matching-append re (l ∷ ls) ms = elim (Bool-cases (match re l)) [
  | inl e ↦ rw e (
      ap (λ w. l ++ newline ∷ w) (matching-append re ls ms)
      ∙ sym (append_assoc l (newline ∷ matching re ls) (matching re ms)))
  | inr e ↦ rw e (matching-append re ls ms)
]

held_split :
    (c : ℕ) (held : List ℕ)
    → has_nl (c ∷ held) ≡ false
    → ((c == newline) ≡ false) × (has_nl held ≡ false)
held_split c held h = ground arith

glue : (line : List ℕ) (c : ℕ) (held : List ℕ) → (line ++ c ∷ []) ++ held ≡ line ++ c ∷ held
glue line c held = append_assoc line (c ∷ []) held

-- A line held in the buffer is the beginning of the next one.
lines-held :
    (held line bs : List ℕ)
    → has_nl held ≡ false
    → lines line (held ++ bs) ≡ lines (line ++ held) bs
lines-held [] line bs h = rw (append-nil line)
lines-held (c ∷ held) line bs h =
    let (e, rest) = held_split c held h in
    rw e (lines-held held (line ++ c ∷ []) bs rest ∙ ap (λ w. lines w bs) (glue line c held))

tail-held :
    (held line bs : List ℕ)
    → has_nl held ≡ false
    → tail_of line (held ++ bs) ≡ tail_of (line ++ held) bs
tail-held [] line bs h = rw (append-nil line)
tail-held (c ∷ held) line bs h =
    let (e, rest) = held_split c held h in
    rw e (tail-held held (line ++ c ∷ []) bs rest ∙ ap (λ w. tail_of w bs) (glue line c held))

has_nl-append : (bs cs : List ℕ) → has_nl (bs ++ cs) ≡ has_nl bs || has_nl cs
has_nl-append [] cs = refl
has_nl-append (b ∷ bs) cs = ground (arith, has_nl-append bs cs)

tail-plain : (line bs : List ℕ) → has_nl line ≡ false → has_nl (tail_of line bs) ≡ false
tail-plain line [] h = h
tail-plain line (c ∷ bs) h = elim (Bool-cases (c == newline)) [
  | inl e ↦ rw e (tail-plain [] bs refl)
  | inr e ↦ rw e (tail-plain (line ++ c ∷ []) bs (ground (arith, has_nl-append line (c ∷ []))))
]

-- All that the reads return.
abbrev pub joined : List (List ℕ) → List ℕ
joined [] = []
joined (r ∷ reads) = r ++ joined reads

abbrev pub each_ends_line : List (List ℕ) → Bool
each_ends_line [] = true
each_ends_line (r ∷ reads) = has_nl r && each_ends_line reads

no_nul-append : (bs cs : List ℕ) → no_nul (bs ++ cs) ≡ no_nul bs && no_nul cs
no_nul-append [] cs = refl
no_nul-append (b ∷ bs) cs = ground (arith, no_nul-append bs cs)

tail-no_nul :
    (line bs : List ℕ) → no_nul line ≡ true → no_nul bs ≡ true → no_nul (tail_of line bs) ≡ true
tail-no_nul line [] h g = h
tail-no_nul line (c ∷ bs) h g =
    let rest : no_nul bs ≡ true = ground arith in
    elim (Bool-cases (c == newline)) [
      | inl e ↦ rw e (tail-no_nul [] bs refl rest)
      | inr e ↦
          rw e (tail-no_nul (line ++ c ∷ []) bs (ground (arith, no_nul-append line (c ∷ []))) rest)
    ]

grep_step :
    (re held r : List ℕ) (reads : List (List ℕ))
    → no_nul held ≡ true
    → no_nul r ≡ true
    → has_nl held ≡ false
    → has_nl r ≡ true
    → grep re held (r ∷ reads) ≡ matching re (lines held r) ++ grep re (tail_of held r) reads
unfolding grep
grep_step re held [] reads hn rn plain h = let no : false ≡ true = h in absurd (ground arith)
grep_step re held (c ∷ bs) reads hn rn plain h =
    let text : no_nul (held ++ c ∷ bs) ≡ true = ground (arith, no_nul-append held (c ∷ bs)) in
    let buffer : has_newline (held ++ c ∷ bs) ≡ has_nl (held ++ c ∷ bs) =
      no_nul-has_newline (held ++ c ∷ bs) text in
    let any : has_nl (held ++ c ∷ bs) ≡ true = ground (arith, has_nl-append held (c ∷ bs)) in
    rw (scan-lines re [] (held ++ c ∷ bs) text) (
      rw (buffer, any)
        (rw (lines-held held [] (c ∷ bs) plain, tail-held held [] (c ∷ bs) plain) refl))

grep-lines :
    (re held : List ℕ) (reads : List (List ℕ))
    → no_nul held ≡ true
    → no_nul (joined reads) ≡ true
    → has_nl held ≡ false
    → each_ends_line reads ≡ true
    → grep re held reads ≡ matching re (lines held (joined reads))
unfolding grep
grep-lines re held [] hn jn plain h = refl
grep-lines re held (r ∷ reads) hn jn plain h =
    let rn : no_nul r ≡ true = ground (arith, no_nul-append r (joined reads)) in
    let later : no_nul (joined reads) ≡ true = ground (arith, no_nul-append r (joined reads)) in
    let this : has_nl r ≡ true = ground arith in
    let rest : each_ends_line reads ≡ true = ground arith in
    grep_step re held r reads hn rn plain this
    ∙ ap (λ w. matching re (lines held r) ++ w)
        (grep-lines re (tail_of held r) reads (tail-no_nul held r hn rn) later
          (tail-plain held r plain) rest)
    ∙ sym (matching-append re (lines held r) (lines (tail_of held r) (joined reads)))
    ∙ ap (matching re) (sym (lines-append held r (joined reads)))

-- If every read returns a newline at least and the input has no NUL, what grep writes is the lines of the whole input that
-- match, each with its newline, wherever the reads cut the input.
pub grep-joined :
    (re : List ℕ) (reads : List (List ℕ))
    → no_nul (joined reads) ≡ true
    → each_ends_line reads ≡ true
    → grep re [] reads ≡ matching re (lines [] (joined reads))
grep-joined re reads text h = grep-lines re [] reads refl text refl h
