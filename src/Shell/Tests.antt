-- ===== src/Shell/Tests.antt =====
-- Small command lines: the theorems on Unix_Shell/seush.c at them.
use os_wsl.Prelude.{Bool, ◌≡◌, refl, ◌<◌, true, none, some, [], ◌∷◌, inl, length, arith}
use os_wsl.Shell.{Text, greater, parse_from, tokens, spaced, execute}
use os_wsl.Shell.Words.{lex, tokens-lex}
use os_wsl.Shell.Grammar.{Reads, parse-Reads}
use os_wsl.Shell.Commands.{Means, execute-Means}

-- `ls>f`
abbrev ls : Text
ls = b'l' ∷ b's' ∷ []

abbrev file_f : Text
file_f = b'f' ∷ []

abbrev ls_to_f : Text
ls_to_f = b'l' ∷ b's' ∷ b'>' ∷ b'f' ∷ []

abbrev all_there : Text → Bool
all_there cmd = true

tokens-lex_example :
    (length (spaced none ls_to_f) < 1024) × (tokens ls_to_f ≡ ls ∷ greater ∷ file_f ∷ [])
unfolding lex
tokens-lex_example = tokens-lex ls_to_f (inl (omega arith))

parse-Reads_example : Reads [] (ls ∷ greater ∷ file_f ∷ []) (ls ∷ []) (some file_f)
unfolding parse_from
parse-Reads_example = parse-Reads (ls ∷ greater ∷ file_f ∷ []) (ls ∷ []) (some file_f) refl

ls_to_f_fits : length (spaced none ls_to_f) < 1024
unfolding spaced
ls_to_f_fits = omega arith

execute-Means_example :
    Means all_there
      ((b'/' ∷ []) ∷ [])
      ls
      []
      (some file_f)
      (execute all_there ((b'/' ∷ []) ∷ []) ls_to_f)
unfolding lex
execute-Means_example =
    execute-Means all_there ((b'/' ∷ []) ∷ []) ls_to_f ls [] (some file_f) refl (refl, tt)
      (omega arith) (omega arith) ls_to_f_fits
