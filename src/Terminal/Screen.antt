-- ===== src/Terminal/Screen.antt =====
-- src/terminal.hpp: the text that the screen shows, as the lines above the cursor's and its own line.
pub mod Around
pub mod Core
pub mod Texts
pub mod Shows
pub mod Break
pub mod Replaced
pub mod Print
pub mod Shown
use klee.Base.{
  ℕ, zero, suc, ◌+◌, ◌-◌, ◌*◌, ◌%◌, ◌≤◌, ◌<◌, ◌≡◌, Bool, true, false, not, List, [], ◌∷◌, ◌++◌,
  length, take, drop, get_or, ◌==◌, if◌then◌else◌,
}
use klee.Terminal.{Terminal, Line, line_at, current}

pub record Text : Type 0 where
  pub above : List (List ℕ)
  pub line : List ℕ

-- A new line; the first is lost when there is no room for one more.
abbrev pub break : ℕ → Text → Text
break rows s =
    let all = s.above ++ s.line ∷ [] in
    record { above = if length all == rows then drop 1 all else all; line = [] }

abbrev pub unsnoc : List ℕ → List ℕ
unsnoc [] = []
unsnoc (c ∷ []) = []
unsnoc (c ∷ d ∷ cs) = c ∷ unsnoc (d ∷ cs)

abbrev pub print : ℕ → ℕ → Text → ℕ → Text
print rows columns s c =
    let written = record s { line = s.line ++ c ∷ [] } in
    if length written.line == columns then break rows written else written

abbrev pub type_char : ℕ → ℕ → Text → ℕ → Text
type_char rows columns s c =
    if c == 10
    then break rows s
    else if c == 8
    then record s { line = unsnoc s.line }
    else print rows columns s c

abbrev pub type_all : ℕ → ℕ → Text → List ℕ → Text
type_all rows columns s [] = s
type_all rows columns s (c ∷ cs) = type_all rows columns (type_char rows columns s c) cs

-- What the terminal holds.
abbrev pub text_of : Line → List ℕ
text_of l = take l.len l.chars

abbrev pub tabulate : (ℕ → List ℕ) → ℕ → ℕ → List (List ℕ)
tabulate f i zero = []
tabulate f i (suc count) = f i ∷ tabulate f (suc i) count

abbrev pub row_text : Terminal → ℕ → List ℕ
row_text t i = text_of (line_at t ((t.head + i) % t.rows))

abbrev pub shown : Terminal → Text
shown t = record { above = tabulate (row_text t) 0 t.row; line = row_text t t.row }

-- The lines and the place of the window.
pub record IsLaid (t : Terminal) : Type 0 where
  pub sized : length t.buffer ≡ t.rows
  pub row_inside : t.row < t.rows
  pub head_inside : t.head < t.rows
  pub tail_behind : t.tail % t.rows ≡ (t.head + t.row + 1) % t.rows
  pub wide : (i : ℕ) → i < t.rows → length (line_at t i).chars ≡ t.columns

pub record IsScreen (t : Terminal) : Type 0 where
  pub laid : IsLaid t
  pub column_inside : t.column < t.columns
  pub cursor : (line_at t ((t.head + t.row) % t.rows)).len ≡ t.column
