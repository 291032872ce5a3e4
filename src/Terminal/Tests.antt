-- ===== src/Terminal/Tests.antt =====
-- Runs of src/terminal.hpp.
use klee.Base.{ℕ, ◌-◌, ◌≡◌, ◌<◌, refl, true, false, List, [], ◌∷◌, ◌++◌, some, arith}
use klee.Terminal.{Terminal, puts, resize}
use klee.Terminal.Screen.{type_all}
use klee.Terminal.Screen.Shows.{Shows}
use klee.Terminal.Screen.Shown.{blank, puts-Shows}
use klee.Terminal.Shell.{split}
use klee.Terminal.Shell.Split.{
  Avoids, IsWord, AllWords, join, lead, split_returns, split-join, split_quoted,
}
use klee.Terminal.Swap.{Loop, start, round, on_refresh, on_fb_event}
use klee.Terminal.Swap.Shown.{draws, completes, turns, Reachable, begins, goes, Reachable-shown}

abbrev terminal : Terminal
terminal = record {
  font_width = 8;
  font_height = 16;
  width = 24;
  height = 32;
  buffer = [];
  drawn = [];
  refresh = false;
  head = 0;
  tail = 1;
  row = 0;
  column = 0;
  rows = 25;
  columns = 80;
}

-- Four lines on a screen of two rows and three columns, with a backspace.
abbrev str : List ℕ
str = 97 ∷ 98 ∷ 99 ∷ 100 ∷ 8 ∷ 101 ∷ 10 ∷ 102 ∷ 103 ∷ 104 ∷ 105 ∷ []

type_all-str :
    type_all 2 3 blank str ≡ record { above = (102 ∷ 103 ∷ 104 ∷ []) ∷ []; line = 105 ∷ [] }
type_all-str = refl

puts-Shows_example : Shows (puts (resize terminal 2 3) str) (type_all 2 3 blank str) 2 3
puts-Shows_example = puts-Shows terminal 2 3 str (omega arith) (omega arith)

-- `a "` and `ls x`
split_returns_example : (r : List (List ℕ)) × (split (97 ∷ 32 ∷ 34 ∷ []) ≡ some r)
split_returns_example = split_returns (97 ∷ 32 ∷ 34 ∷ [])

abbrev words : List (List ℕ)
words = (108 ∷ 115 ∷ []) ∷ (120 ∷ []) ∷ []

AllWords-words : AllWords words
unfolding AllWords IsWord Avoids
AllWords-words = (
  (refl, ((λ e. absurd (omega (arith, e))), ((λ e. absurd (omega (arith, e))), tt))),
  ((refl, ((λ e. absurd (omega (arith, e))), tt)), tt),
)

split-join_example : split (108 ∷ 115 ∷ 32 ∷ 120 ∷ []) ≡ some words
split-join_example = split-join words AllWords-words

Avoids-quoted : Avoids 34 (97 ∷ [])
unfolding Avoids
Avoids-quoted = (λ e. absurd (omega (arith, e)), tt)

split_quoted_example :
    split (lead words (34 ∷ ((97 ∷ []) ++ 34 ∷ 32 ∷ join words)))
    ≡ some (words ++ (97 ∷ []) ∷ [] ∷ words)
split_quoted_example =
    split_quoted words 34 (97 ∷ []) words AllWords-words refl Avoids-quoted AllWords-words

-- The shell draws, the loop swaps, the device is done, and the loop takes note.
abbrev drawn_once : Loop
drawn_once = record start { drawn = 1; refresh = true }

swapping-Reachable : Reachable (round true drawn_once)
swapping-Reachable = goes (goes begins draws) (turns true refl refl)

in_flight-swapping : 0 < (round true drawn_once).in_flight
unfolding round on_refresh
in_flight-swapping = omega arith

abbrev swapped : Loop
swapped = let l = round true drawn_once in record l { in_flight = l.in_flight - 1; fb_event = true }

ready-swapped : (swapped.exit ≡ false) × (swapped.returned ≡ false)
unfolding round on_refresh
ready-swapped = (refl, refl)

record Quiet (l : Loop) : Type 0 where
  running : l.returned ≡ false
  no_refresh : l.refresh ≡ false
  no_event : l.fb_event ≡ false
  none_in_flight : l.in_flight ≡ 0

quiet : Quiet (round true swapped)
unfolding round on_refresh on_fb_event
quiet = record { running = refl; no_refresh = refl; no_event = refl; none_in_flight = refl }

Reachable-shown_example : (round true swapped).shown ≡ (round true swapped).drawn
Reachable-shown_example =
    Reachable-shown
      (goes (goes swapping-Reachable (completes in_flight-swapping))
        (turns true ready-swapped.0 ready-swapped.1))
      quiet.running quiet.no_refresh quiet.no_event quiet.none_in_flight
