-- ===== src/Terminal/Screen/Break.antt =====
-- src/terminal.hpp: newline, on the text that the screen shows.
use native.Mathlib.Nat.{mod-lt, mod-mod, mod-add-mod}
use klee.Base.{
  ℕ, suc, ◌+◌, ◌-◌, ◌%◌, ◌<◌, ◌≡◌, ◌≢◌, refl, sym, ap, ◌∙◌, subst, true, false, [], ◌∷◌, ◌++◌,
  length, length-set, drop, set, get_or-set_self, get_or-set_ne, arith, ◌==◌, ==_refl, ==_ne,
  if◌then◌else◌, ℕ_discrete, Bool-cases, inl, inr,
}
use klee.Terminal.{Terminal, Line, no_line, line_at, newline, clear_line, last_line, scroll}
use klee.Terminal.Screen.{break, text_of, tabulate, row_text, shown, IsLaid, IsScreen}
use klee.Terminal.Screen.Around.{distinct, further, before_next}
use klee.Terminal.Screen.Shows.{Shows, Shows-core}
use klee.Terminal.Screen.Core.{core, core-draw_all}
use klee.Terminal.Screen.Texts.{tabulate_ext, tabulate_snoc, tabulate_shift, length-tabulate}

-- The window at head `h` with the cursor at row `r` of an empty line.
abbrev pub cleared : Terminal → ℕ → ℕ → Terminal
cleared t h r =
    let i = t.tail % t.rows in
    let l = line_at t i in
    record t {
      buffer = set t.buffer i (record l { len = 0 });
      drawn = [];
      refresh = false;
      head = h;
      tail = (t.tail + 1) % t.rows;
      row = r;
      column = 0;
    }

module _ (t : Terminal) (v : IsLaid t) (h r : ℕ) (h_inside : h < t.rows) (r_inside : r < t.rows)
    (place : t.tail % t.rows ≡ (h + r) % t.rows) where
  abbrev empty : Line
  empty = let l = line_at t (t.tail % t.rows) in record l { len = 0 }

  place-lt : (h + r) % t.rows < length t.buffer
  place-lt = rw v.sized (mod-lt (h + r) (omega arith))

  at_place : line_at (cleared t h r) ((h + r) % t.rows) ≡ empty
  at_place =
      subst (λ j. line_at (cleared t h r) j ≡ empty) place
        (get_or-set_self t.buffer (t.tail % t.rows) empty no_line (rw place place-lt))

  elsewhere : (i : ℕ) → i ≢ (h + r) % t.rows → line_at (cleared t h r) i ≡ line_at t i
  elsewhere i n = get_or-set_ne t.buffer (t.tail % t.rows) i empty no_line (λ e. n (sym e ∙ place))

  cleared-IsScreen : 0 < t.columns → IsScreen (cleared t h r)
  cleared-IsScreen c = record {
    laid = record {
      sized = length-set t.buffer (t.tail % t.rows) empty ∙ v.sized;
      row_inside = r_inside;
      head_inside = h_inside;
      tail_behind =
          mod-mod (t.tail + 1) t.rows
          ∙ sym (mod-add-mod t.tail t.rows 1)
          ∙ ap (λ x. (x + 1) % t.rows) place
          ∙ mod-add-mod (h + r) t.rows 1;
      wide = λ i low. elim (ℕ_discrete i ((h + r) % t.rows)) [
        | yes e ↦ rw (e, at_place) (v.wide (t.tail % t.rows) (mod-lt t.tail (omega arith)))
        | no n ↦ rw (elsewhere i n) (v.wide i low)
      ];
    };
    column_inside = c;
    cursor = ap (λ l. l.len) at_place;
  }

  row-cleared :
      (j : ℕ) → j < r → row_text (cleared t h r) j ≡ text_of (line_at t ((h + j) % t.rows))
  row-cleared j l =
      ap text_of (elsewhere ((h + j) % t.rows) (distinct h j r t.rows h_inside l r_inside))

  line-cleared : row_text (cleared t h r) r ≡ []
  line-cleared = ap text_of at_place

module _ (t : Terminal) (v : IsLaid t) where
  all_lines : tabulate (row_text t) 0 (suc t.row) ≡ (shown t).above ++ (shown t).line ∷ []
  all_lines =
      let e : 0 + t.row ≡ t.row = omega arith in
      tabulate_snoc (row_text t) 0 t.row ∙ ap (λ j. (shown t).above ++ row_text t j ∷ []) e

  count_lines : length ((shown t).above ++ (shown t).line ∷ []) ≡ t.row + 1
  count_lines = sym (ap length all_lines) ∙ length-tabulate (row_text t) 0 (suc t.row) ∙ omega arith

  next_place : (t.row + 1 < t.rows) → t.tail % t.rows ≡ (t.head + (t.row + 1)) % t.rows
  next_place h =
      let e : t.head + t.row + 1 ≡ t.head + (t.row + 1) = omega arith in
      v.tail_behind ∙ ap (λ x. x % t.rows) e

  shown-next :
      (h : t.row + 1 < t.rows) → shown (cleared t t.head (t.row + 1)) ≡ break t.rows (shown t)
  shown-next h =
      let p = next_place h in
      let lines : tabulate (row_text (cleared t t.head (t.row + 1))) 0 (t.row + 1)
          ≡ (shown t).above ++ (shown t).line ∷ [] =
        tabulate_ext (row_text (cleared t t.head (t.row + 1))) (row_text t) 0 (t.row + 1)
          (λ j low high. row-cleared t v t.head (t.row + 1) v.head_inside h p j (omega arith))
        ∙ ap (tabulate (row_text t) 0) plus_one
        ∙ all_lines in
      let room : (length ((shown t).above ++ (shown t).line ∷ []) == t.rows) ≡ false =
        ap (λ n. n == t.rows) count_lines
        ∙ ==_ne (t.row + 1) t.rows (λ e. absurd (omega (arith, e))) in
      ap (λ ls. record { above = ls; line = row_text (cleared t t.head (t.row + 1)) (t.row + 1) })
        lines
      ∙ ap (λ l. record { above = (shown t).above ++ (shown t).line ∷ []; line = l })
          (line-cleared t v t.head (t.row + 1) v.head_inside h p)
      ∙ rw room refl
    where
      plus_one : t.row + 1 ≡ suc t.row
      plus_one = omega arith

  abbrev next_head : ℕ
  next_head = (t.head + 1) % t.rows

  scroll_place : t.row + 1 ≡ t.rows → t.tail % t.rows ≡ (next_head + t.row) % t.rows
  scroll_place h =
      let e : t.head + t.row + 1 ≡ t.head + suc t.row = omega arith in
      v.tail_behind ∙ ap (λ x. x % t.rows) e ∙ sym (further t.head t.row t.rows)

  next_head-lt : next_head < t.rows
  next_head-lt = let i = v.row_inside in mod-lt (t.head + 1) (omega arith)

  shown-scroll : t.row + 1 ≡ t.rows → shown (cleared t next_head t.row) ≡ break t.rows (shown t)
  shown-scroll h =
      let p = scroll_place h in
      let lines : tabulate (row_text (cleared t next_head t.row)) 0 t.row
          ≡ drop 1 ((shown t).above ++ (shown t).line ∷ []) =
        tabulate_ext (row_text (cleared t next_head t.row)) (λ j. row_text t (suc j)) 0 t.row
          (λ j low high.
            row-cleared t v next_head t.row next_head-lt v.row_inside p j (omega arith)
            ∙ ap (λ x. text_of (line_at t x)) (further t.head j t.rows))
        ∙ tabulate_shift (row_text t) 0 t.row
        ∙ ap (drop 1) all_lines in
      let full : (length ((shown t).above ++ (shown t).line ∷ []) == t.rows) ≡ true =
        ap (λ n. n == t.rows) (count_lines ∙ h) ∙ ==_refl t.rows in
      ap (λ ls. record { above = ls; line = row_text (cleared t next_head t.row) t.row }) lines
      ∙ ap (λ l. record { above = drop 1 ((shown t).above ++ (shown t).line ∷ []); line = l })
          (line-cleared t v next_head t.row next_head-lt v.row_inside p)
      ∙ rw full refl

  same_place :
      (if (t.tail + 1) % length t.buffer == 0
        then length t.buffer - 1
        else (t.tail + 1) % length t.buffer - 1)
      ≡ t.tail % t.rows
  same_place = let i = v.row_inside in rw v.sized (before_next t.tail t.rows (omega arith))

  abbrev closed : ℕ → ℕ → ℕ → ℕ → Terminal
  closed i n h r =
      let l = line_at t i in
      record t {
        buffer = set t.buffer i (record l { len = 0 });
        drawn = [];
        refresh = false;
        head = h;
        tail = (t.tail + 1) % n;
        row = r;
        column = 0;
      }

  core-newline_next : t.row + 1 ≢ t.rows → core (newline t) ≡ cleared t t.head (t.row + 1)
  unfolding newline
  core-newline_next h =
      let last : core (newline t)
          ≡ closed
              (if (t.tail + 1) % length t.buffer == 0
                then length t.buffer - 1
                else (t.tail + 1) % length t.buffer - 1)
              (length t.buffer) t.head (t.row + 1) =
        elim (Bool-cases (t.column == 0)) [
          | inl c ↦ rw (==_ne (t.row + 1) t.rows h, c) refl
          | inr c ↦ rw (==_ne (t.row + 1) t.rows h, c) refl
        ] in
      last
      ∙ ap (λ i. closed i (length t.buffer) t.head (t.row + 1)) same_place
      ∙ ap (λ n. closed (t.tail % t.rows) n t.head (t.row + 1)) v.sized

  core-newline_scroll : t.row + 1 ≡ t.rows → core (newline t) ≡ cleared t next_head t.row
  unfolding newline
  core-newline_scroll h =
      let scrolled = scroll (record t { tail = (t.tail + 1) % length t.buffer }) in
      let last : core (newline t)
          ≡ closed
              (if (t.tail + 1) % length t.buffer == 0
                then length t.buffer - 1
                else (t.tail + 1) % length t.buffer - 1)
              (length t.buffer) ((t.head + 1) % length t.buffer) t.row =
        rw (h, ==_refl t.rows) (core-draw_all (clear_line scrolled (last_line scrolled))) in
      last
      ∙ ap (λ i. closed i (length t.buffer) ((t.head + 1) % length t.buffer) t.row) same_place
      ∙ ap (λ n. closed (t.tail % t.rows) n ((t.head + 1) % n) t.row) v.sized

pub newline-Shows :
    (t : Terminal)
    → IsLaid t
    → 0 < t.columns
    → Shows (newline t) (break t.rows (shown t)) t.rows t.columns
newline-Shows t v c = elim (ℕ_discrete (t.row + 1) t.rows) [
  | yes h ↦
      Shows-core (newline t) (cleared t (next_head t v) t.row) (break t.rows (shown t)) t.rows
        t.columns (core-newline_scroll t v h)
        record {
          screen =
              cleared-IsScreen t v (next_head t v) t.row (next_head-lt t v) v.row_inside
                (scroll_place t v h) c;
          text = shown-scroll t v h;
          same_rows = refl;
          same_columns = refl;
        }
  | no h ↦
      let i = v.row_inside in
      let l : t.row + 1 < t.rows = omega (arith, h) in
      Shows-core (newline t) (cleared t t.head (t.row + 1)) (break t.rows (shown t)) t.rows
        t.columns (core-newline_next t v h)
        record {
          screen = cleared-IsScreen t v t.head (t.row + 1) v.head_inside l (next_place t v l) c;
          text = shown-next t v l;
          same_rows = refl;
          same_columns = refl;
        }
]
