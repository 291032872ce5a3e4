-- ===== src/Terminal/Shell.antt =====
-- src/terminal.hpp: how the shell cuts a line into arguments. Characters are numbers.
pub mod Split
use klee.Base.{
  ℕ, zero, suc, Bool, true, false, ◌||◌, List, [], ◌∷◌, Option, none, some, length, ◌==◌,
  if◌then◌else◌,
}

abbrev pub is_quote : ℕ → Bool
is_quote c = (c == 34) || (c == 39)

abbrev pub skip : ℕ → List ℕ × List ℕ → List ℕ × List ℕ
skip c (before, rest) = (c ∷ before, rest)

-- The inner loops: what stands before the first `stop`, and the rest from there.
abbrev pub until : ℕ → List ℕ → List ℕ × List ℕ
until stop [] = ([], [])
until stop (c ∷ cs) = let more = skip c (until stop cs) in if c == stop then ([], c ∷ cs) else more

abbrev pub next : List ℕ → List ℕ
next [] = []
next (c ∷ cs) = cs

abbrev pub still_open : ℕ → List ℕ → ℕ
still_open qot [] = qot
still_open qot (c ∷ cs) = 0

abbrev pub argument : List ℕ → Option (List (List ℕ)) → Option (List (List ℕ))
argument arg none = none
argument arg (some args) = some (arg ∷ args)

-- The loop from a place of the string on, with the quote that is open (0 for none).
unfoldable pub split_from : ℕ → ℕ → List ℕ → Option (List (List ℕ))
split_from zero qot str = none
split_from (suc fuel) qot [] = some []
split_from (suc fuel) qot (c ∷ cs) =
    let quote' = if is_quote c then c else qot in
    let word = until 32 (c ∷ cs) in
    let quoted = until quote' cs in
    let after_word = split_from fuel 0 (next word.1) in
    let after_quote = split_from fuel (still_open quote' quoted.1) (next quoted.1) in
    if quote' == 0 then argument word.0 after_word else argument quoted.0 after_quote

unfoldable pub split : List ℕ → Option (List (List ℕ))
split str = split_from (suc (length str)) 0 str
