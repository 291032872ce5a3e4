-- ===== src/Terminal/Screen/Shown.antt =====
-- src/terminal.hpp: a text put on an empty screen.

use klee.Base.{
  ℕ, zero, suc, ◌+◌, ◌%◌, ◌<◌, ◌≡◌, refl, ap, ◌∙◌, false, List, [], ◌∷◌, length, map, take, get_or,
  arith,
}
use klee.Terminal.{
  Terminal, Line, no_line, line_at, putc, put_all, puts, resize, resized, resized_line,
}
use klee.Terminal.Screen.{Text, type_char, type_all, shown}
use klee.Terminal.Screen.Shows.{Shows, Shows-drawn}
use klee.Terminal.Screen.Print.{putc-Shows}

put_all-Shows :
    (t : Terminal) (s : Text) (rows columns : ℕ) (cs : List ℕ)
    → Shows t s rows columns
    → Shows (put_all t cs) (type_all rows columns s cs) rows columns
put_all-Shows t s rows columns [] w = w
put_all-Shows t s rows columns (c ∷ cs) w =
    let step = putc-Shows t w.screen c false in
    let e : type_char t.rows t.columns (shown t) c ≡ type_char rows columns s c =
      ap (λ n. type_char n t.columns (shown t) c) w.same_rows
      ∙ ap (λ n. type_char rows n (shown t) c) w.same_columns
      ∙ ap (λ x. type_char rows columns x c) w.text in
    put_all-Shows (putc t c false) (type_char rows columns s c) rows columns cs record {
      screen = step.screen;
      text = step.text ∙ e;
      same_rows = step.same_rows ∙ w.same_rows;
      same_columns = step.same_columns ∙ w.same_columns;
    }

length-resized : {A : Type 0} (n : ℕ) (d : A) (xs : List A) → length (resized n d xs) ≡ n
length-resized zero d xs = refl
length-resized (suc n) d [] = ap suc (length-resized n d [])
length-resized (suc n) d (x ∷ xs) = ap suc (length-resized n d xs)

length-map_line :
    (columns : ℕ) (ls : List Line) → length (map (resized_line columns) ls) ≡ length ls
length-map_line columns [] = refl
length-map_line columns (l ∷ ls) = ap suc (length-map_line columns ls)

wide_lines :
    (columns : ℕ) (ls : List Line) (i : ℕ)
    → i < length ls
    → length (get_or (map (resized_line columns) ls) i no_line).chars ≡ columns
wide_lines columns [] i h = absurd (omega arith)
wide_lines columns (l ∷ ls) zero h = length-resized columns 0 l.chars
wide_lines columns (l ∷ ls) (suc i) h = wide_lines columns ls i (omega arith)

empty_lines :
    (columns : ℕ) (ls : List Line) (i : ℕ)
    → (get_or (map (resized_line columns) ls) i no_line).len ≡ 0
empty_lines columns [] i = refl
empty_lines columns (l ∷ ls) zero = refl
empty_lines columns (l ∷ ls) (suc i) = empty_lines columns ls i

-- The empty screen.
abbrev pub blank : Text
blank = record { above = []; line = [] }

resize-Shows :
    (t : Terminal) (rows columns : ℕ)
    → 0 < rows
    → 0 < columns
    → Shows (resize t rows columns) blank rows columns
unfolding resize
resize-Shows t rows columns h k =
    let empty = empty_lines columns (resized rows no_line t.buffer) in
    record {
      screen = record {
        laid = record {
          sized =
              length-map_line columns (resized rows no_line t.buffer)
              ∙ length-resized rows no_line t.buffer;
          row_inside = h;
          head_inside = h;
          tail_behind = refl;
          wide = λ i low.
              wide_lines columns (resized rows no_line t.buffer) i
                (omega (arith, length-resized rows no_line t.buffer));
        };
        column_inside = k;
        cursor = empty ((0 + 0) % rows);
      };
      text =
          ap
            (λ n. record {
              above = [];
              line = take n (line_at (resize t rows columns) ((0 + 0) % rows)).chars;
            })
            (empty ((0 + 0) % rows));
      same_rows = refl;
      same_columns = refl;
    }

-- After resize, puts shows what typing the text on an empty screen of that size gives, whatever the
-- text: lines break at the width and at new lines, a backspace takes back the last character of the
-- line, and when the screen is full its first line is lost; the ring of lines is in order again and the
-- cursor inside it. The screen has at least one row and one column.
pub puts-Shows :
    (t : Terminal) (rows columns : ℕ) (str : List ℕ)
    → 0 < rows
    → 0 < columns
    → Shows (puts (resize t rows columns) str) (type_all rows columns blank str) rows columns
unfolding puts
puts-Shows t rows columns str h k =
    Shows-drawn (puts (resize t rows columns) str) (put_all (resize t rows columns) str) _ rows
      columns refl
      (put_all-Shows (resize t rows columns) blank rows columns str
        (resize-Shows t rows columns h k))
