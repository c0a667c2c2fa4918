-- ===== src/Shell/Pieces.antt =====
-- The commands of a line of Unix_Shell/seush.c: the pieces between the `&`s that are not empty.
use os_wsl.Prelude.{
  ℕ, zero, suc, ◌-◌, ◌<◌, ◌≡◌, refl, ap, sym, ◌∙◌, inl, inr, true, List, [], ◌∷◌, ◌++◌, arith, take,
  ◌==◌, if◌then◌else◌, Bool-cases,
}
use os_wsl.Shell.{Text, keep, room_after, split_from, split_parallel_commands}

-- All the pieces, with the one read so far.
unfoldable pub pieces : Text → Text → List Text
pieces piece [] = keep piece []
pieces piece (c ∷ cs) =
    let more = pieces [] cs in
    let on = pieces (piece ++ (c ∷ [])) cs in if c == b'&' then keep piece more else on

take-keep :
    (left : ℕ) (piece : Text) (rest : List Text)
    → 0 < left
    → take left (keep piece rest) ≡ keep piece (take (room_after piece left) rest)
take-keep zero piece rest h = elim h [ ]
take-keep (suc left) [] rest h = refl
take-keep (suc left) (c ∷ cs) rest h =
    ap (λ (n : ℕ). (c ∷ cs) ∷ take n rest) {x = left} {y = suc left - 1} (omega arith)

none_left : (n : ℕ) (rest : List Text) → (n == 0) ≡ true → take n rest ≡ []
none_left zero rest h = refl
none_left (suc n) rest h = ground arith

take_nothing : (n : ℕ) → take {A = Text} n [] ≡ []
take_nothing zero = refl
take_nothing (suc n) = refl

split_from-pieces :
    (cs piece : Text) (left : ℕ) → 0 < left → split_from left piece cs ≡ take left (pieces piece cs)
unfolding split_from pieces
split_from-pieces [] piece left h =
    ap (keep piece) (sym (take_nothing (room_after piece left))) ∙ sym (take-keep left piece [] h)
split_from-pieces (c ∷ cs) piece left h = elim (Bool-cases (c == b'&')) [
  | inl e ↦ rw e (
      ap (keep piece) (elim (Bool-cases (room_after piece left == 0)) [
        | inl z ↦ rw z (sym (none_left (room_after piece left) (pieces [] cs) z))
        | inr z ↦ rw z (split_from-pieces cs [] (room_after piece left) (ground arith))
      ])
      ∙ sym (take-keep left piece (pieces [] cs) h))
  | inr e ↦ rw e (split_from-pieces cs (piece ++ (c ∷ [])) left h)
]

-- The commands that are executed are the first 64 of the pieces between the `&`s of the line that
-- are not empty; the others are passed over without an error.
pub split-pieces : (line : Text) → split_parallel_commands line ≡ take 64 (pieces [] line)
unfolding split_parallel_commands
split-pieces line = split_from-pieces line [] 64 (omega arith)
