-- ===== src/Grep/Tests.antt =====
-- Xv6-Threads/src/grep.c on small texts.
use os_wsl.Prelude.{ℕ, ◌≡◌, refl, ◌↔◌, true, false, List, [], ◌∷◌}
use os_wsl.Grep.{newline, asterisk, caret, match, grep}
use os_wsl.Grep.Relation.{Found, match_iff}
use os_wsl.Grep.Lines.{lines, matching, joined, grep-joined}

-- "^ab*c" and "abbc"
abbrev expression : List ℕ
expression = caret ∷ 97 ∷ 98 ∷ asterisk ∷ 99 ∷ []

abbrev abbc : List ℕ
abbc = 97 ∷ 98 ∷ 98 ∷ 99 ∷ []

match-abbc : match expression abbc ≡ true
unfolding match
match-abbc = refl

no_match_b : match expression (98 ∷ abbc) ≡ false
unfolding match
no_match_b = refl

match_iff_example : (match expression abbc ≡ true) ↔ Found expression abbc
match_iff_example = match_iff expression abbc

-- Two lines in reads that cut the second one.
abbrev reads : List (List ℕ)
reads = (120 ∷ newline ∷ 97 ∷ 98 ∷ []) ∷ (98 ∷ 99 ∷ newline ∷ 97 ∷ []) ∷ []

grep_two : grep expression [] reads ≡ 97 ∷ 98 ∷ 98 ∷ 99 ∷ newline ∷ []
unfolding grep
grep_two = refl

-- The first line is lost when the first read ends within it.
grep_lost : grep expression [] ((97 ∷ 98 ∷ []) ∷ (99 ∷ newline ∷ []) ∷ []) ≡ []
unfolding grep
grep_lost = refl

-- A line with a NUL is not found.
grep_nul : grep expression [] ((97 ∷ 99 ∷ 0 ∷ newline ∷ []) ∷ []) ≡ []
unfolding grep
grep_nul = refl

grep-joined_example : grep expression [] reads ≡ matching expression (lines [] (joined reads))
grep-joined_example = grep-joined expression reads refl refl
