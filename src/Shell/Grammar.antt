-- ===== src/Shell/Grammar.antt =====
-- The parse of a command of Unix_Shell/seush.c against its grammar: words, and at most one `>` with a
-- file behind it at the end.
use mathlib.Core.List.{append-nil, append_assoc}
use mathlib.Core.Path.{subst}
use os_wsl.Prelude.{
  ◌≡◌, refl, ap, sym, ◌∙◌, inl, inr, true, false, Option, none, some, List, [], ◌∷◌, ◌++◌, arith,
  Bool-cases,
}
use os_wsl.Shell.{Text, same, greater, Parsed, parse_error, parsed, parse_from}

-- The words of a command with these arguments and this redirection.
abbrev pub written : List Text → Option Text → List Text
written args none = args
written args (some f) = args ++ (greater ∷ f ∷ [])

abbrev pub NoGreater : List Text → Type 0
NoGreater [] = Unit
NoGreater (t ∷ ts) = (same t greater ≡ false) × NoGreater ts

pub same-eq : (s t : Text) → same s t ≡ true → s ≡ t
same-eq [] [] h = refl
same-eq [] (d ∷ t) h = ground arith
same-eq (c ∷ s) [] h = ground arith
same-eq (c ∷ s) (d ∷ t) h = ground (arith, same-eq s t)

snoc :
    (argv : List Text) (t : Text) (args : List Text)
    → (argv ++ (t ∷ [])) ++ args ≡ argv ++ (t ∷ args)
snoc argv t args = append_assoc argv (t ∷ []) args

pub parse_from-written :
    (args argv : List Text) (file : Option Text)
    → NoGreater args
    → parse_from argv none (written args file) ≡ parsed (argv ++ args) file
unfolding parse_from
parse_from-written [] argv none h = ap (λ (ws : List Text). parsed ws none) (sym (append-nil argv))
parse_from-written [] argv (some f) h =
    ap (λ (ws : List Text). parsed ws (some f)) (sym (append-nil argv))
parse_from-written (t ∷ []) argv none h = rw h.0
parse_from-written (t ∷ []) argv (some f) h = rw h.0 (
    parse_from-written [] (argv ++ (t ∷ [])) (some f) tt
    ∙ ap (λ (ws : List Text). parsed ws (some f)) (append-nil (argv ++ (t ∷ []))))
parse_from-written (t ∷ u ∷ args) argv none h = rw h.0 (
    parse_from-written (u ∷ args) (argv ++ (t ∷ [])) none h.1
    ∙ ap (λ (ws : List Text). parsed ws none) (snoc argv t (u ∷ args)))
parse_from-written (t ∷ u ∷ args) argv (some f) h = rw h.0 (
    parse_from-written (u ∷ args) (argv ++ (t ∷ [])) (some f) h.1
    ∙ ap (λ (ws : List Text). parsed ws (some f)) (snoc argv t (u ∷ args)))

-- What a parse says of the tokens it has read.
pub record Reads (argv : List Text) (ts out : List Text) (file : Option Text) : Type 0 where
  pub args : List Text
  pub plain : NoGreater args
  pub argv_is : out ≡ argv ++ args
  pub tokens_are : ts ≡ written args file

cons_Reads :
    (t : Text) (argv ts out : List Text) (file : Option Text)
    → same t greater ≡ false
    → Reads (argv ++ (t ∷ [])) ts out file
    → Reads argv (t ∷ ts) out file
cons_Reads t argv ts out none h r = record {
  args = t ∷ r.args;
  plain = (h, r.plain);
  argv_is = r.argv_is ∙ snoc argv t r.args;
  tokens_are = ap (λ (ws : List Text). t ∷ ws) r.tokens_are;
}
cons_Reads t argv ts out (some f) h r = record {
  args = t ∷ r.args;
  plain = (h, r.plain);
  argv_is = r.argv_is ∙ snoc argv t r.args;
  tokens_are = ap (λ (ws : List Text). t ∷ ws) r.tokens_are;
}

abbrev ReadsOf : List Text → List Text → Parsed → Type 0
ReadsOf argv ts parse_error = Unit
ReadsOf argv ts (parsed out file) = Reads argv ts out file

no_args : (argv : List Text) → Reads argv [] argv none
no_args argv = record { args = []; plain = tt; argv_is = sym (append-nil argv); tokens_are = refl }

redirected :
    (argv : List Text) (t u : Text) → same t greater ≡ true → Reads argv (t ∷ u ∷ []) argv (some u)
redirected argv t u e = record {
  args = [];
  plain = tt;
  argv_is = sym (append-nil argv);
  tokens_are = ap (λ (w : Text). w ∷ u ∷ []) (same-eq t greater e);
}

cons_ReadsOf :
    (t : Text) (argv ts : List Text) (p : Parsed)
    → same t greater ≡ false
    → ReadsOf (argv ++ (t ∷ [])) ts p
    → ReadsOf argv (t ∷ ts) p
cons_ReadsOf t argv ts parse_error h r = tt
cons_ReadsOf t argv ts (parsed out file) h r = cons_Reads t argv ts out file h r

parse_from-ReadsOf : (ts argv : List Text) → ReadsOf argv ts (parse_from argv none ts)
unfolding parse_from
parse_from-ReadsOf [] argv = no_args argv
parse_from-ReadsOf (t ∷ []) argv = elim (Bool-cases (same t greater)) [
  | inl e ↦ rw e tt
  | inr e ↦
      rw e (cons_ReadsOf t argv [] (parsed (argv ++ (t ∷ [])) none) e (no_args (argv ++ (t ∷ []))))
]
parse_from-ReadsOf (t ∷ u ∷ []) argv = elim (Bool-cases (same t greater)) [
  | inl e ↦ rw e (redirected argv t u e)
  | inr e ↦ rw e (
      cons_ReadsOf t argv (u ∷ []) (parse_from (argv ++ (t ∷ [])) none (u ∷ [])) e
        (parse_from-ReadsOf (u ∷ []) (argv ++ (t ∷ []))))
]
parse_from-ReadsOf (t ∷ u ∷ v ∷ ts) argv = elim (Bool-cases (same t greater)) [
  | inl e ↦ rw e tt
  | inr e ↦ rw e (
      cons_ReadsOf t argv (u ∷ v ∷ ts) (parse_from (argv ++ (t ∷ [])) none (u ∷ v ∷ ts)) e
        (parse_from-ReadsOf (u ∷ v ∷ ts) (argv ++ (t ∷ []))))
]

-- A parse that succeeds has read words without a `>`, which are its arguments, followed by nothing
-- or by one `>` and the file's name: the tokens are what these arguments and this file are written
-- as.
pub parse-Reads :
    (ts out : List Text) (file : Option Text)
    → parse_from [] none ts ≡ parsed out file
    → Reads [] ts out file
parse-Reads ts out file h = subst (ReadsOf [] ts) h (parse_from-ReadsOf ts [])
