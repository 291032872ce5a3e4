-- ===== src/Terminal.antt =====
-- src/terminal.hpp: the text screen. What is drawn is the list of the commands to the frame buffer, the
-- last one first; the event that asks for a refresh is a flag. A position is column times width and
-- row times height, in 32 bits.
mod Tests
pub mod Screen
pub mod Shell
pub mod Swap
use klee.Base.{
  ℕ, zero, suc, ◌+◌, ◌-◌, ◌*◌, ◌/◌, ◌%◌, ◌^◌, Bool, true, false, not, ◌||◌, List, [], ◌∷◌, get_or,
  set, replicate, length, take, ◌++◌, map, ◌==◌, if◌then◌else◌,
}

pub record Point : Type 0 where
  pub x : ℕ
  pub y : ℕ

-- draw_rect and draw_ascii of FramebufferWriter
pub data Command : Type 0 where
  draw_rect : Point → Point → ℕ → Command
  draw_ascii : Point → ℕ → ℕ → Command

pub record Line : Type 0 where
  pub chars : List ℕ
  pub len : ℕ

abbrev pub no_line : Line
no_line = record { chars = []; len = 0 }

pub record Terminal : Type 0 where
  pub font_width : ℕ
  pub font_height : ℕ
  pub width : ℕ
  pub height : ℕ
  pub buffer : List Line
  pub drawn : List Command
  pub refresh : Bool
  pub head : ℕ
  pub tail : ℕ
  pub row : ℕ
  pub column : ℕ
  pub rows : ℕ
  pub columns : ℕ

abbrev pub white : ℕ
white = 16777215

abbrev pub black : ℕ
black = 0

abbrev pub calc_position : Terminal → ℕ → ℕ → Point
calc_position t row column = record {
  x = t.font_width * column % 2 ^ 32;
  y = t.font_height * row % 2 ^ 32;
}

abbrev pub draw : Command → Terminal → Terminal
draw c t = record t { drawn = c ∷ t.drawn }

abbrev pub shifted_point : Point → ℕ → ℕ → Point
shifted_point p x y = record { x = p.x + x; y = p.y + y }

abbrev pub draw_cursor : ℕ → ℕ → Bool → Terminal → Terminal
draw_cursor row column on t =
    let p = calc_position t row ((column + 1) % 2 ^ 32) in
    draw (draw_rect p (shifted_point p 1 t.font_height) (if on then white else black)) t

abbrev pub draw_line : ℕ → ℕ → List ℕ → Terminal → Terminal
draw_line n c [] t = t
draw_line n c (k ∷ ks) t =
    draw_line n (c + 1) ks (draw (draw_ascii (calc_position t n c) k white) t)

abbrev pub line_at : Terminal → ℕ → Line
line_at t i = get_or t.buffer i no_line

-- The loop over the lines from `i` on, to `tail`. It meets each line once, so that it has as many
-- rounds as there are lines.
abbrev pub draw_lines : ℕ → ℕ → ℕ → Terminal → Terminal
draw_lines zero i n t = t
draw_lines (suc rounds) i n t =
    let l = line_at t i in
    let rest =
      draw_lines rounds ((i + 1) % length t.buffer) (n + 1)
        (draw_line n 0 (take l.len l.chars) t) in
    if (n == 0) || not (i == t.tail) then rest else t

abbrev pub draw_all : Terminal → Terminal
draw_all t =
    draw_lines (length t.buffer) t.head 0
      (draw (draw_rect (record { x = 0; y = 0 }) (record { x = t.width; y = t.height }) black) t)

-- `column - 1` in 32 bits
abbrev pub before : ℕ → ℕ
before column = (column + (2 ^ 32 - 1)) % 2 ^ 32

abbrev pub clear_line : Terminal → ℕ → Terminal
clear_line t i =
    let l = line_at t i in record t { buffer = set t.buffer i (record l { len = 0 }); column = 0 }

abbrev pub last_line : Terminal → ℕ
last_line t = if t.tail == 0 then length t.buffer - 1 else t.tail - 1

abbrev pub next_row : Terminal → Terminal
next_row t =
    let erased = if t.column == 0 then t else draw_cursor t.row (before t.column) false t in
    record erased { row = t.row + 1 }

abbrev pub scroll : Terminal → Terminal
scroll t = draw_cursor t.row t.column true (record t { head = (t.head + 1) % length t.buffer })

unfoldable pub newline : Terminal → Terminal
newline t =
    let t1 = record t { tail = (t.tail + 1) % length t.buffer } in
    let next = next_row t1 in
    let scrolled = scroll t1 in
    if not (t.row + 1 == t.rows)
    then clear_line next (last_line next)
    else draw_all (clear_line scrolled (last_line scrolled))

abbrev pub current : Terminal → ℕ
current t = (t.head + t.row) % length t.buffer

abbrev pub set_len : Terminal → ℕ → ℕ → Terminal
set_len t i n = let l = line_at t i in record t { buffer = set t.buffer i (record l { len = n }) }

abbrev pub erase_char : Terminal → Terminal
erase_char t =
    let l = line_at t (current t) in
    let p = calc_position t t.row (t.column - 1) in
    let shorter = set_len t (current t) (l.len - 1) in
    let moved = record shorter { column = t.column - 1 } in
    draw_cursor t.row (before (t.column - 1)) true (
      draw (draw_rect p (shifted_point p t.font_width t.font_height) black)
        (draw_cursor t.row (t.column - 1) false moved))

unfoldable pub backspace : Terminal → Terminal
backspace t = if t.column == 0 then t else erase_char t

abbrev pub put_char : Terminal → ℕ → Terminal
put_char t chr =
    let l = line_at t (current t) in
    record t {
      buffer =
          set t.buffer (current t) (record { chars = set l.chars t.column chr; len = l.len + 1 });
    }

unfoldable pub print_char : Terminal → ℕ → Terminal
print_char t chr =
    let t1 = put_char t chr in
    let t2 = if t.column == 0 then t1 else draw_cursor t.row (before t.column) false t1 in
    let t3 =
      draw_cursor t.row t.column true
        (draw (draw_ascii (calc_position t2 t.row t.column) chr white) t2) in
    if not (t.column + 1 == t.columns) then record t3 { column = t.column + 1 } else newline t1

abbrev pub handle_char : Terminal → ℕ → Terminal
handle_char t chr =
    if chr == 10 then newline t else if chr == 8 then backspace t else print_char t chr

unfoldable pub putc : Terminal → ℕ → Bool → Terminal
putc t chr do_refresh =
    let t' = handle_char t chr in if do_refresh then record t' { refresh = true } else t'

abbrev pub put_all : Terminal → List ℕ → Terminal
put_all t [] = t
put_all t (c ∷ cs) = put_all (putc t c false) cs

unfoldable pub puts : Terminal → List ℕ → Terminal
puts t str = let t' = put_all t str in record t' { refresh = true }

-- std::vector::resize: cuts, or fills up with `d`.
abbrev pub resized {ℓ} : {A : Type ℓ} → ℕ → A → List A → List A
resized zero d xs = []
resized (suc n) d [] = d ∷ resized n d []
resized (suc n) d (x ∷ xs) = x ∷ resized n d xs

abbrev pub resized_line : ℕ → Line → Line
resized_line columns l = record { chars = resized columns 0 l.chars; len = 0 }

unfoldable pub resize : Terminal → ℕ → ℕ → Terminal
resize t new_rows new_columns = record t {
  head = 0;
  tail = 1;
  row = 0;
  column = 0;
  rows = new_rows;
  columns = new_columns;
  buffer = map (resized_line new_columns) (resized new_rows no_line t.buffer);
}
