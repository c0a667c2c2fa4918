-- ===== src/Grep.antt =====
-- Xv6-Threads/src/grep.c. A C string is the list of its bytes before the NUL.
pub mod Relation
pub mod Lines
mod Tests
use os_wsl.Prelude.{
  ℕ, suc, Bool, true, false, not, ◌&&◌, ◌||◌, List, [], ◌∷◌, ◌++◌, ◌==◌, if◌then◌else◌,
}

abbrev pub newline : ℕ
newline = 10

abbrev pub dollar : ℕ
dollar = 36

abbrev pub asterisk : ℕ
asterisk = 42

abbrev pub dot : ℕ
dot = 46

abbrev pub caret : ℕ
caret = 94

abbrev pub empty : List ℕ → Bool
empty [] = true
empty (x ∷ xs) = false

-- Does the expression go on with a `*`?
abbrev pub starred : List ℕ → Bool
starred [] = false
starred (c ∷ re) = c == asterisk

-- The loop of `matchstar` from `text` on; `here` is `matchhere` with the expression after the `*`.
unfoldable pub matchstar : (List ℕ → Bool) → ℕ → List ℕ → Bool
matchstar here c [] = here []
matchstar here c (x ∷ text) =
    let rest = matchstar here c text in
    if here (x ∷ text) then true else (if x == c || c == dot then rest else false)

-- The last test of `matchhere`; `here` is `matchhere` with the rest of the expression.
unfoldable pub match_one : (List ℕ → Bool) → ℕ → List ℕ → Bool
match_one here c [] = false
match_one here c (x ∷ text) = if c == dot || c == x then here text else false

-- `matchhere`, with one clause for each length of the expression that its tests on `re[0]` and
-- `re[1]` tell apart.
unfoldable pub matchhere : List ℕ → List ℕ → Bool
unfolding matchstar match_one
matchhere [] text = true
matchhere (c ∷ []) text = if c == dollar then empty text else match_one (λ rest. true) c text
matchhere (c ∷ d ∷ re) text =
    if d == asterisk then matchstar (matchhere re) c text else match_one (matchhere (d ∷ re)) c text

-- The loop of `match`.
unfoldable pub match_from : List ℕ → List ℕ → Bool
unfolding matchhere
match_from re [] = matchhere re []
match_from re (x ∷ text) =
    let rest = match_from re text in if matchhere re (x ∷ text) then true else rest

unfoldable pub match : List ℕ → List ℕ → Bool
unfolding matchhere match_from
match [] text = match_from [] text
match (c ∷ re) text = if c == caret then matchhere re text else match_from (c ∷ re) text

-- The inner loop of `grep`, over the bytes of the buffer: `line` holds those from `p` on that the loop
-- of strchr has passed, which stops at a NUL. It gives what is written, and the bytes left from `p` on.
unfoldable pub scan : List ℕ → List ℕ → List ℕ → List ℕ × List ℕ
unfolding match
scan re line [] = ([], line)
scan re line (c ∷ bs) =
    if c == newline
    then (let (out, left) = scan re [] bs in
        ((if match re line then line ++ newline ∷ out else out), left))
    else (if c == 0 then ([], line ++ c ∷ bs) else scan re (line ++ c ∷ []) bs)

-- Does the buffer have a newline before the first NUL? Otherwise `p == buf` after the inner loop.
abbrev pub has_newline : List ℕ → Bool
has_newline [] = false
has_newline (c ∷ bs) = c == newline || (not (c == 0) && has_newline bs)

-- The outer loop of `grep`, over what each `read` returns, with the bytes in the buffer. A read of
-- nothing ends it.
unfoldable pub grep : List ℕ → List ℕ → List (List ℕ) → List ℕ
unfolding scan
grep re held [] = []
grep re held ([] ∷ reads) = []
grep re held ((c ∷ bs) ∷ reads) =
    let buf = held ++ c ∷ bs in
    let (out, left) = scan re [] buf in out ++ grep re (if has_newline buf then left else []) reads
