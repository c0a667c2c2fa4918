-- ===== src/Shell.antt =====
-- Unix_Shell/seush.c: how the shell reads a line. A character is its code, and a string is the list of
-- its characters before the terminating zero.
pub mod Words
pub mod Grammar
pub mod Commands
pub mod Pieces
mod Tests
use os_wsl.Prelude.{
  ℕ, ◌+◌, ◌-◌, Bool, true, false, ◌&&◌, ◌||◌, Option, none, some, List, [], ◌∷◌, ◌++◌, length, take,
  ◌==◌, ltb, if◌then◌else◌,
}

abbrev pub Text : Type 0
Text = List ℕ

abbrev pub blank : ℕ → Bool
blank c = c == b' ' || c == 9

abbrev pub null : Text → Bool
null [] = true
null (c ∷ cs) = false

-- `strcmp(s, t) == 0`
abbrev pub same : Text → Text → Bool
same [] [] = true
same (c ∷ cs) (d ∷ ds) = let rest = same cs ds in c == d && rest
same _ _ = false

-- `line[strcspn(line, "\n")] = '\0'`
unfoldable pub cut_newline : Text → Text
cut_newline [] = []
cut_newline (c ∷ cs) = let rest = cut_newline cs in if c == 10 then [] else c ∷ rest

-- The test of `parse_and_execute` for a line that is not blank.
unfoldable pub has_word : Text → Bool
has_word [] = false
has_word (c ∷ cs) = let rest = has_word cs in if blank c then rest else true

-- A piece that is not empty is kept.
abbrev pub keep : Text → List Text → List Text
keep [] rest = rest
keep (c ∷ cs) rest = (c ∷ cs) ∷ rest

-- The places in `cmd` that are left once a piece has been read.
abbrev pub room_after : Text → ℕ → ℕ
room_after [] left = left
room_after (c ∷ cs) left = left - 1

-- The loop of `split_parallel_commands` with `left` places in `cmd`, and the piece read so far.
unfoldable pub split_from : ℕ → Text → Text → List Text
split_from left piece [] = keep piece []
split_from left piece (c ∷ cs) =
    let more = split_from (room_after piece left) [] cs in
    let on = split_from left (piece ++ (c ∷ [])) cs in
    if c == b'&' then keep piece (if room_after piece left == 0 then [] else more) else on

-- The commands of a line; each one is executed, and a single one is waited for.
unfoldable pub split_parallel_commands : Text → List Text
unfolding split_from
split_parallel_commands line = split_from 64 [] line

-- The string as far as it has been written ends in a gap.
abbrev pub is_gap : Option ℕ → Bool
is_gap none = true
is_gap (some c) = blank c

-- The string to be read ends here or begins with a gap.
abbrev pub next_gap : Text → Bool
next_gap [] = true
next_gap (c ∷ cs) = blank c

-- The loop of `execute` that sets spaces around each `>`, with the last character written. What it gives is
-- written to `processed`, whose size `execute` of the model tests.
unfoldable pub spaced : Option ℕ → Text → Text
spaced last [] = []
spaced last (c ∷ cs) =
    let plain = c ∷ spaced (some c) cs in
    let bare = b'>' ∷ spaced (some b'>') cs in
    let apart = b'>' ∷ b' ' ∷ spaced (some b' ') cs in
    let mark = (if next_gap cs then bare else apart) in
    if c == b'>' then (if is_gap last then mark else b' ' ∷ mark) else plain

-- The loop of `strtok(_, " \t")`, with the token read so far.
unfoldable pub tokens_from : Text → Text → List Text
tokens_from token [] = keep token []
tokens_from token (c ∷ cs) =
    let next = tokens_from [] cs in
    let on = tokens_from (token ++ (c ∷ [])) cs in if blank c then keep token next else on

-- `tokens`, of which there are at most 128, for a command that fits `processed` (see `execute`).
unfoldable pub tokens : Text → List Text
unfolding spaced tokens_from
tokens cmd = take 128 (tokens_from [] (spaced none cmd))

abbrev pub greater : Text
greater = b'>' ∷ []

-- `argv` and `redirect_file`, or the error.
pub data Parsed : Type 0 where
  parse_error : Parsed
  parsed : List Text → Option Text → Parsed

-- The loop over the tokens, for the tokens that are left.
unfoldable pub parse_from : List Text → Option Text → List Text → Parsed
parse_from argv file [] = parsed argv file
parse_from argv (some f) (t ∷ ts) = parse_error
parse_from argv none (t ∷ []) =
    if same t greater then parse_error else parsed (argv ++ (t ∷ [])) none
parse_from argv none (t ∷ u ∷ ts) =
    let redirected = parse_from argv (some u) ts in
    let on = parse_from (argv ++ (t ∷ [])) none (u ∷ ts) in
    if same t greater then redirected else on

-- What `execute` does with a command: nothing, an error message, or one of its calls; or it writes past
-- the end of one of its arrays.
pub data Action : Type 0 where
  nothing complains exits overruns : Action
  changes_directory : Text → Action
  sets_path : List Text → Action
  runs : Text → List Text → Option Text → Action

abbrev pub word_exit : Text
word_exit = b'e' ∷ b'x' ∷ b'i' ∷ b't' ∷ []

abbrev pub word_cd : Text
word_cd = b'c' ∷ b'd' ∷ []

abbrev pub word_path : Text
word_path = b'p' ∷ b'a' ∷ b't' ∷ b'h' ∷ []

abbrev pub has_slash : Text → Bool
has_slash [] = false
has_slash (c ∷ cs) = c == b'/' || has_slash cs

-- The loop of `find_executable` over the path, with `access(_, X_OK)` as a parameter.
unfoldable pub search_path : (Text → Bool) → List Text → Text → Option Text
search_path access [] cmd = none
search_path access (d ∷ ds) cmd =
    let full = take 1023 (d ++ (b'/' ∷ cmd)) in
    let rest = search_path access ds cmd in if access full then some full else rest

unfoldable pub find_executable : (Text → Bool) → List Text → Text → Option Text
unfolding search_path
find_executable access dirs cmd =
    if has_slash cmd
    then (if access cmd then some (take 1023 cmd) else none)
    else search_path access dirs cmd

abbrev pub is_none : Option Text → Bool
is_none none = true
is_none (some f) = false

-- The built-in commands, and the others, for a first word `cmd`.
unfoldable pub dispatch : (Text → Bool) → List Text → Text → List Text → Option Text → Action
unfolding find_executable
dispatch access dirs cmd args file =
    let cd_to : Action = elim args [ [] ↦ complains | a ∷ rest ↦ changes_directory a ] in
    let run : Action = elim (find_executable access dirs cmd) [
      | none ↦ complains
      | some full ↦ runs full (cmd ∷ args) file
    ] in
    if same cmd word_exit
    then (if length args == 0 && is_none file then exits else complains)
    else (if same cmd word_cd
        then (if length args == 1 && is_none file then cd_to else complains)
        else (if same cmd word_path
            then (if is_none file then sets_path args else complains)
            else run))

-- `execute` behind the parse; `argv` has 128 places, the NULL behind the arguments included.
unfoldable pub act : (Text → Bool) → List Text → Parsed → Action
unfolding dispatch
act access dirs parse_error = complains
act access dirs (parsed [] none) = nothing
act access dirs (parsed [] (some f)) = complains
act access dirs (parsed (cmd ∷ args) file) =
    if ltb (length args + 1) 128 then dispatch access dirs cmd args file else overruns

unfoldable pub execute : (Text → Bool) → List Text → Text → Action
unfolding act parse_from tokens spaced
execute access dirs cmd =
    if ltb (length (spaced none cmd)) 1024
    then act access dirs (parse_from [] none (tokens cmd))
    else overruns

-- `parse_and_execute`: the commands that are executed.
unfoldable pub parse_and_execute : Text → List Text
unfolding cut_newline has_word split_parallel_commands
parse_and_execute line =
    let cut = cut_newline line in if has_word cut then split_parallel_commands cut else []
