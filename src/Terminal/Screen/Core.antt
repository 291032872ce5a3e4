-- ===== src/Terminal/Screen/Core.antt =====
-- src/terminal.hpp: drawing leaves the lines and the cursor as they are.
use klee.Base.{
  ℕ, zero, suc, ◌+◌, ◌%◌, ◌≡◌, refl, ◌∙◌, false, not, ◌||◌, List, [], ◌∷◌, take, length, Bool-cases,
  inl, inr, ◌==◌,
}
use klee.Terminal.{
  Terminal, draw, draw_ascii, draw_line, draw_lines, draw_all, calc_position, white, line_at,
}

-- A terminal less what was drawn.
abbrev pub core : Terminal → Terminal
core t = record t { drawn = []; refresh = false }

core-draw_line : (n c : ℕ) (ks : List ℕ) (t : Terminal) → core (draw_line n c ks t) ≡ core t
core-draw_line n c [] t = refl
core-draw_line n c (k ∷ ks) t =
    core-draw_line n (c + 1) ks (draw (draw_ascii (calc_position t n c) k white) t)

core-draw_lines : (rounds i n : ℕ) (t : Terminal) → core (draw_lines rounds i n t) ≡ core t
core-draw_lines zero i n t = refl
core-draw_lines (suc rounds) i n t =
    let l = line_at t i in
    let line = draw_line n 0 (take l.len l.chars) t in
    elim (Bool-cases ((n == 0) || not (i == t.tail))) [
      | inl h ↦ rw h (
          core-draw_lines rounds ((i + 1) % length t.buffer) (n + 1) line
          ∙ core-draw_line n 0 (take l.len l.chars) t)
      | inr h ↦ rw h refl
    ]

pub core-draw_all : (t : Terminal) → core (draw_all t) ≡ core t
core-draw_all t = core-draw_lines (length t.buffer) t.head 0 _
