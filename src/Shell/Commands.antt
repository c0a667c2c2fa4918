-- ===== src/Shell/Commands.antt =====
-- What `execute` of Unix_Shell/seush.c does with a command that is written well.
use os_wsl.Prelude.{
  take_all, ℕ, ◌+◌, ◌≤◌, ◌<◌, ◌≡◌, refl, sym, ap, ◌∙◌, inl, inr, Bool, true, false, ◌&&◌, Option,
  none, some, List, [], ◌∷◌, ◌++◌, arith, length, take, ltb, ◌==◌, if◌then◌else◌, Bool-cases,
}
use mathlib.Core.Path.{subst}
use os_wsl.Shell.{
  Text, same, has_slash, parsed, parse_from, spaced, tokens, Action, complains, exits,
  changes_directory, sets_path, runs, word_exit, word_cd, word_path, search_path, find_executable,
  is_none, dispatch, act, execute,
}
use os_wsl.Shell.Words.{lex, tokens-lex_all}
use os_wsl.Shell.Grammar.{written, NoGreater, same-eq, parse_from-written}

-- The file that a word names: itself if it has a slash; otherwise the first in the directories of the path
-- that may be executed. Names are cut at 1023 characters.
pub data Locates (access : Text → Bool) : List Text → Text → Option Text → Type 0 where
  given :
      (dirs : List Text) (cmd : Text)
      → has_slash cmd ≡ true
      → access cmd ≡ true
      → Locates access dirs cmd (some (take 1023 cmd))
  given_not :
      (dirs : List Text) (cmd : Text)
      → has_slash cmd ≡ true
      → access cmd ≡ false
      → Locates access dirs cmd none
  nowhere : (cmd : Text) → has_slash cmd ≡ false → Locates access [] cmd none
  here :
      (d : Text) (dirs : List Text) (cmd : Text)
      → has_slash cmd ≡ false
      → access (take 1023 (d ++ (b'/' ∷ cmd))) ≡ true
      → Locates access (d ∷ dirs) cmd (some (take 1023 (d ++ (b'/' ∷ cmd))))
  later :
      (d : Text) (dirs : List Text) (cmd : Text) (o : Option Text)
      → has_slash cmd ≡ false
      → access (take 1023 (d ++ (b'/' ∷ cmd))) ≡ false
      → Locates access dirs cmd o
      → Locates access (d ∷ dirs) cmd o

-- More or other than what the built-in command takes.
abbrev Misused : ℕ → List Text → Option Text → Type 0
Misused n args none = ¬ (length args ≡ n)
Misused n args (some f) = Unit

abbrev NoBuiltin : Text → Type 0
NoBuiltin cmd = (¬ (cmd ≡ word_exit)) × (¬ (cmd ≡ word_cd)) × (¬ (cmd ≡ word_path))

-- What a command is for: its first word, its arguments, its redirection and what the shell does.
pub data Means (access : Text → Bool) (dirs : List Text)
    : Text → List Text → Option Text → Action → Type 0 where
  leaves : Means access dirs word_exit [] none exits
  leaves_not :
      (args : List Text) (file : Option Text)
      → Misused 0 args file
      → Means access dirs word_exit args file complains
  goes : (d : Text) → Means access dirs word_cd (d ∷ []) none (changes_directory d)
  goes_not :
      (args : List Text) (file : Option Text)
      → Misused 1 args file
      → Means access dirs word_cd args file complains
  sets : (args : List Text) → Means access dirs word_path args none (sets_path args)
  sets_not : (args : List Text) (f : Text) → Means access dirs word_path args (some f) complains
  starts :
      (cmd full : Text) (args : List Text) (file : Option Text)
      → NoBuiltin cmd
      → Locates access dirs cmd (some full)
      → Means access dirs cmd args file (runs full (cmd ∷ args) file)
  starts_not :
      (cmd : Text) (args : List Text) (file : Option Text)
      → NoBuiltin cmd
      → Locates access dirs cmd none
      → Means access dirs cmd args file complains

search_path-Locates :
    (access : Text → Bool) (dirs : List Text) (cmd : Text)
    → has_slash cmd ≡ false
    → Locates access dirs cmd (search_path access dirs cmd)
unfolding search_path
search_path-Locates access [] cmd h = nowhere cmd h
search_path-Locates access (d ∷ dirs) cmd h =
    elim (Bool-cases (access (take 1023 (d ++ (b'/' ∷ cmd))))) [
      | inl e ↦ rw e (here d dirs cmd h e)
      | inr e ↦ rw e (
          later d dirs cmd (search_path access dirs cmd) h e
            (search_path-Locates access dirs cmd h))
    ]

find_executable-Locates :
    (access : Text → Bool) (dirs : List Text) (cmd : Text)
    → Locates access dirs cmd (find_executable access dirs cmd)
unfolding find_executable
find_executable-Locates access dirs cmd = elim (Bool-cases (has_slash cmd)) [
  | inr e ↦ rw e (search_path-Locates access dirs cmd e)
  | inl e ↦ rw e (elim (Bool-cases (access cmd)) [
    | inl f ↦ rw f (given dirs cmd e f)
    | inr f ↦ rw f (given_not dirs cmd e f)
  ])
]

same-other : (s t : Text) → same s t ≡ false → ¬ (s ≡ t)
same-other s t h e = let self = self s in cc
  where
    self : (w : Text) → same w w ≡ true
    self [] = refl
    self (c ∷ w) = ground (arith, self w)

module _ (access : Text → Bool) (dirs : List Text) where
  exit-Means :
      (args : List Text) (file : Option Text)
      → Means access dirs word_exit args file
          (if length args == 0 && is_none file then exits else complains)
  exit-Means [] none = leaves
  exit-Means [] (some f) = leaves_not [] (some f) tt
  exit-Means (a ∷ args) none =
      let more : (length (a ∷ args) == 0 && true) ≡ false = ground arith in
      rw more (leaves_not (a ∷ args) none (λ e. omega arith))
  exit-Means (a ∷ args) (some f) =
      let more : (length (a ∷ args) == 0 && false) ≡ false = ground arith in
      rw more (leaves_not (a ∷ args) (some f) tt)

  cd-Means :
      (args : List Text) (file : Option Text)
      → Means access dirs word_cd args file (
          if length args == 1 && is_none file
          then elim args [ [] ↦ complains | a ∷ rest ↦ changes_directory a ]
          else complains)
  cd-Means [] none = goes_not [] none (λ e. omega arith)
  cd-Means [] (some f) = goes_not [] (some f) tt
  cd-Means (a ∷ []) none = goes a
  cd-Means (a ∷ []) (some f) = goes_not (a ∷ []) (some f) tt
  cd-Means (a ∷ b ∷ args) none =
      let more : (length (a ∷ b ∷ args) == 1 && true) ≡ false = ground arith in
      rw more (goes_not (a ∷ b ∷ args) none (λ e. omega arith))
  cd-Means (a ∷ b ∷ args) (some f) =
      let more : (length (a ∷ b ∷ args) == 1 && false) ≡ false = ground arith in
      rw more (goes_not (a ∷ b ∷ args) (some f) tt)

  path-Means :
      (args : List Text) (file : Option Text)
      → Means access dirs word_path args file (if is_none file then sets_path args else complains)
  path-Means args none = sets args
  path-Means args (some f) = sets_not args f

  run-Means :
      (cmd : Text) (args : List Text) (file : Option Text) (o : Option Text)
      → NoBuiltin cmd
      → Locates access dirs cmd o
      → Means access dirs cmd args file
          (elim o [ none ↦ complains | some full ↦ runs full (cmd ∷ args) file ])
  run-Means cmd args file none other found = starts_not cmd args file other found
  run-Means cmd args file (some full) other found = starts cmd full args file other found

  dispatch-Means :
      (cmd : Text) (args : List Text) (file : Option Text)
      → Means access dirs cmd args file (dispatch access dirs cmd args file)
  unfolding dispatch
  dispatch-Means cmd args file = elim (Bool-cases (same cmd word_exit)) [
    | inl e ↦ rw e (
        subst
          (λ w.
            Means access dirs w args file
              (if length args == 0 && is_none file then exits else complains))
          (sym (same-eq cmd word_exit e)) (exit-Means args file))
    | inr e ↦ rw e (elim (Bool-cases (same cmd word_cd)) [
      | inl f ↦ rw f (
          subst
            (λ w. Means access dirs w args file (
              if length args == 1 && is_none file
              then elim args [ [] ↦ complains | a ∷ rest ↦ changes_directory a ]
              else complains))
            (sym (same-eq cmd word_cd f)) (cd-Means args file))
      | inr f ↦ rw f (elim (Bool-cases (same cmd word_path)) [
        | inl g ↦ rw g (
            subst
              (λ w.
                Means access dirs w args file (if is_none file then sets_path args else complains))
              (sym (same-eq cmd word_path g)) (path-Means args file))
        | inr g ↦ rw g (
            run-Means cmd args file (find_executable access dirs cmd)
              (same-other cmd word_exit e, same-other cmd word_cd f, same-other cmd word_path g)
              (find_executable-Locates access dirs cmd))
      ])
    ])
  ]

-- A command that is written as a word `cmd` and arguments, none of them `>`, and a redirection or none, is
-- executed as what it means, whatever the spacing: exit, cd and path with their numbers of arguments and
-- without a redirection, an error message where these are used otherwise, and any other word as the program
-- that it names. (The command has at most 127 arguments with its first word and 128 words in all, and fits
-- 1023 characters with the spaces set around each `>`.)
pub execute-Means :
    (access : Text → Bool) (dirs : List Text) (line cmd : Text) (args : List Text)
    (file : Option Text)
    → lex [] line ≡ written (cmd ∷ args) file
    → NoGreater (cmd ∷ args)
    → length (written (cmd ∷ args) file) ≤ 128
    → length args + 1 < 128
    → length (spaced none line) < 1024
    → Means access dirs cmd args file (execute access dirs line)
unfolding execute act
execute-Means access dirs line cmd args file words plain few room fits =
    let ts : tokens line ≡ written (cmd ∷ args) file =
      tokens-lex_all line ∙ ap (take 128) words ∙ take_all 128 (written (cmd ∷ args) file) few in
    let read : parse_from [] none (tokens line) ≡ parsed (cmd ∷ args) file =
      ap (parse_from [] none) ts ∙ parse_from-written (cmd ∷ args) [] file plain in
    let short : ltb (length (spaced none line)) 1024 ≡ true = ground arith in
    let places : ltb (length args + 1) 128 ≡ true = ground arith in
    rw short (rw read (rw places (dispatch-Means access dirs cmd args file)))
