-- ===== src/Shell/Words.antt =====
-- The words of a command of Unix_Shell/seush.c: setting spaces around each `>` and cutting at blanks
-- gives the words of a lexer that takes each `>` for a word of its own.
use os_wsl.Prelude.{
  ℕ, ◌*◌, ◌<◌, ◌≤◌, ◌⊎◌, ◌≡◌, refl, ap, sym, ◌∙◌, inl, inr, true, false, Option, none, some, List,
  [], ◌∷◌, ◌++◌, arith, length, take, ◌==◌, if◌then◌else◌, Bool-cases,
}
use os_wsl.Shell.{Text, blank, null, keep, is_gap, next_gap, spaced, tokens_from, tokens, greater}

-- The words of a command, with the word read so far.
unfoldable pub lex : Text → Text → List Text
lex word [] = keep word []
lex word (c ∷ cs) =
    let next = lex [] cs in
    let on = lex (word ++ (c ∷ [])) cs in
    if c == b'>' then keep word (greater ∷ next) else (if blank c then keep word next else on)

null-append : (w : Text) (c : ℕ) → null (w ++ (c ∷ [])) ≡ false
null-append [] c = refl
null-append (d ∷ w) c = refl

keep-null : (w : Text) (rest : List Text) → null w ≡ true → keep w rest ≡ rest
keep-null [] rest h = refl
keep-null (c ∷ w) rest h = cc

blank-greater : (c : ℕ) → blank c ≡ true → (c == b'>') ≡ false
blank-greater c h = ground arith

-- A `>`, with the space behind it that is set where none is.
mark : Text → Text
unfolding spaced
mark cs = if next_gap cs then b'>' ∷ spaced (some b'>') cs else b'>' ∷ b' ' ∷ spaced (some b' ') cs

mark_nil : tokens_from [] (mark []) ≡ greater ∷ lex [] []
unfolding tokens_from spaced lex mark
mark_nil = refl

mark-gap : (b : ℕ) (bs : Text) → blank b ≡ true → mark (b ∷ bs) ≡ b'>' ∷ b ∷ spaced (some b) bs
unfolding mark spaced
mark-gap b bs e = rw e (rw (blank-greater b e))

mark-apart :
    (b : ℕ) (bs : Text)
    → blank b ≡ false
    → mark (b ∷ bs) ≡ b'>' ∷ b' ' ∷ spaced (some b' ') (b ∷ bs)
unfolding mark
mark-apart b bs e = rw e

lex-gap : (b : ℕ) (bs w : Text) → blank b ≡ true → lex w (b ∷ bs) ≡ keep w (lex [] bs)
unfolding lex
lex-gap b bs w e = rw (blank-greater b e) (rw e)

token-gap :
    (b : ℕ) (cs w : Text) → blank b ≡ true → tokens_from w (b ∷ cs) ≡ keep w (tokens_from [] cs)
unfolding tokens_from
token-gap b cs w e = rw e

token_apart : (cs : Text) → tokens_from [] (b'>' ∷ b' ' ∷ cs) ≡ greater ∷ tokens_from [] cs
unfolding tokens_from
token_apart cs = refl

token_bare : (cs : Text) → tokens_from [] (b'>' ∷ cs) ≡ tokens_from greater cs
unfolding tokens_from
token_bare cs = refl

mark_cons :
    (b : ℕ) (bs : Text)
    → (blank b ≡ true → tokens_from [] (spaced (some b) bs) ≡ lex [] bs)
    → tokens_from [] (spaced (some b' ') (b ∷ bs)) ≡ lex [] (b ∷ bs)
    → tokens_from [] (mark (b ∷ bs)) ≡ greater ∷ lex [] (b ∷ bs)
mark_cons b bs tail next = elim (Bool-cases (blank b)) [
  | inl e ↦
      ap (tokens_from []) (mark-gap b bs e)
      ∙ token_bare (b ∷ spaced (some b) bs)
      ∙ token-gap b (spaced (some b) bs) greater e
      ∙ ap (λ (ws : List Text). greater ∷ ws) (tail e ∙ sym (lex-gap b bs [] e))
  | inr e ↦
      ap (tokens_from []) (mark-apart b bs e)
      ∙ token_apart (spaced (some b' ') (b ∷ bs))
      ∙ ap (λ (ws : List Text). greater ∷ ws) next
]

gap_closes :
    (w : Text) (last : Option ℕ) (cs : Text) (words : List Text)
    → is_gap last ≡ null w
    → tokens_from [] (mark cs) ≡ words
    → tokens_from w (if is_gap last then mark cs else b' ' ∷ mark cs) ≡ keep w words
unfolding tokens_from
gap_closes [] last cs words h e = rw h e
gap_closes (d ∷ w) last cs words h e = rw h (ap (λ (ws : List Text). (d ∷ w) ∷ ws) e)

plain_goes_on :
    (c : ℕ) (cs w : Text)
    → (c == b'>') ≡ false
    → ((v : Text) → blank c ≡ null v → tokens_from v (spaced (some c) cs) ≡ lex v cs)
    → tokens_from w (c ∷ spaced (some c) cs) ≡ lex w (c ∷ cs)
unfolding tokens_from lex
plain_goes_on c cs w other go = elim (Bool-cases (blank c)) [
  | inl e ↦ rw (other, e) (ap (keep w) (go [] e))
  | inr e ↦ rw (other, e) (go (w ++ (c ∷ [])) (e ∙ sym (null-append w c)))
]

spaced-mark :
    (c : ℕ) (cs : Text) (last : Option ℕ)
    → (c == b'>') ≡ true
    → spaced last (c ∷ cs) ≡ (if is_gap last then mark cs else b' ' ∷ mark cs)
unfolding spaced mark
spaced-mark c cs last e = rw e

spaced-plain :
    (c : ℕ) (cs : Text) (last : Option ℕ)
    → (c == b'>') ≡ false
    → spaced last (c ∷ cs) ≡ c ∷ spaced (some c) cs
unfolding spaced
spaced-plain c cs last e = rw e

lex-greater :
    (c : ℕ) (cs w : Text) → (c == b'>') ≡ true → lex w (c ∷ cs) ≡ keep w (greater ∷ lex [] cs)
unfolding lex
lex-greater c cs w e = rw e

-- One character of the command, given the rest.
tokens_step :
    (c : ℕ) (cs w : Text) (last : Option ℕ)
    → is_gap last ≡ null w
    → tokens_from [] (mark cs) ≡ greater ∷ lex [] cs
    → ((v : Text) → blank c ≡ null v → tokens_from v (spaced (some c) cs) ≡ lex v cs)
    → tokens_from w (spaced last (c ∷ cs)) ≡ lex w (c ∷ cs)
tokens_step c cs w last h marked go = elim (Bool-cases (c == b'>')) [
  | inl e ↦
      ap (tokens_from w) (spaced-mark c cs last e)
      ∙ gap_closes w last cs (greater ∷ lex [] cs) h marked
      ∙ sym (lex-greater c cs w e)
  | inr e ↦ ap (tokens_from w) (spaced-plain c cs last e) ∙ plain_goes_on c cs w e go
]

tokens_nil : (w : Text) (last : Option ℕ) → tokens_from w (spaced last []) ≡ lex w []
unfolding tokens_from spaced lex
tokens_nil w last = refl

tokens_from-spaced :
    (cs w : Text) (last : Option ℕ)
    → is_gap last ≡ null w
    → tokens_from w (spaced last cs) ≡ lex w cs
tokens_from-spaced [] w last h = tokens_nil w last
tokens_from-spaced (c ∷ []) w last h =
    tokens_step c [] w last h mark_nil (λ v e. tokens_nil v (some c))
tokens_from-spaced (c ∷ b ∷ bs) w last h =
    tokens_step c (b ∷ bs) w last h
      (mark_cons b bs (λ e. tokens_from-spaced bs [] (some b) e)
        (tokens_from-spaced (b ∷ bs) [] (some b' ') refl))
      (λ v e. tokens_from-spaced (b ∷ bs) v (some c) e)

pub tokens-lex_all : (cmd : Text) → tokens cmd ≡ take 128 (lex [] cmd)
unfolding tokens
tokens-lex_all cmd = ap (take 128) (tokens_from-spaced cmd [] none refl)

-- `processed`, which has room for 1024 characters with the zero, gets at least as many characters as
-- the command has, and at most three times as many.
spaced_bounds :
    (cs : Text) (last : Option ℕ)
    → (length cs ≤ length (spaced last cs)) × (length (spaced last cs) ≤ 3 * length cs)
unfolding spaced
spaced_bounds [] last = (omega arith, omega arith)
spaced_bounds (c ∷ cs) last =
    let a = spaced_bounds cs (some c) in
    let b = spaced_bounds cs (some b'>') in
    let d = spaced_bounds cs (some b' ') in ground (arith, a.0, a.1, b.0, b.1, d.0, d.1)

-- A command of at most 341 characters fits `processed` with its zero, and its tokens are then the first
-- 128 of its words, where each `>` is a word of its own wherever it stands, and blanks separate words. The
-- same holds of any command that fits with the spaces that are set around each `>`.
pub tokens-lex :
    (cmd : Text)
    → (length cmd ≤ 341) ⊎ (length (spaced none cmd) < 1024)
    → (length (spaced none cmd) < 1024) × (tokens cmd ≡ take 128 (lex [] cmd))
tokens-lex cmd (inl short) = (omega (arith, (spaced_bounds cmd none).1), tokens-lex_all cmd)
tokens-lex cmd (inr fits) = (fits, tokens-lex_all cmd)
