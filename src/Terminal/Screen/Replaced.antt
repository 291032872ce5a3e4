-- ===== src/Terminal/Screen/Replaced.antt =====
-- src/terminal.hpp: the cursor's line replaced by another.
use native.Mathlib.Nat.{mod-lt}
use klee.Base.{
  ℕ, ◌+◌, ◌%◌, ◌<◌, ◌≡◌, refl, sym, ap, ◌∙◌, subst, length, length-set, set, get_or-set_self,
  get_or-set_ne, arith, ℕ_discrete,
}
use klee.Terminal.{Terminal, Line, no_line, line_at, current}
use klee.Terminal.Screen.{text_of, row_text, shown, IsLaid}
use klee.Terminal.Screen.Around.{distinct}
use klee.Terminal.Screen.Texts.{tabulate_ext}
use klee.Terminal.Screen.Shows.{Shows}

module _ (t : Terminal) (v : IsLaid t) where
  abbrev pub here : ℕ
  here = (t.head + t.row) % t.rows

  -- The cursor's line replaced.
  abbrev pub replaced : Line → ℕ → Terminal
  replaced l n = record t { buffer = set t.buffer here l; column = n }

  here-lt : here < length t.buffer
  here-lt = let i = v.row_inside in rw v.sized (mod-lt (t.head + t.row) (omega arith))

  at_here : (l : Line) (n : ℕ) → line_at (replaced l n) here ≡ l
  at_here l n = get_or-set_self t.buffer here l no_line here-lt

  pub replaced-IsLaid : (l : Line) (n : ℕ) → length l.chars ≡ t.columns → IsLaid (replaced l n)
  replaced-IsLaid l n w = record {
    sized = length-set t.buffer here l ∙ v.sized;
    row_inside = v.row_inside;
    head_inside = v.head_inside;
    tail_behind = v.tail_behind;
    wide = λ i low. elim (ℕ_discrete here i) [
      | yes e ↦
          subst (λ j. length (line_at (replaced l n) j).chars ≡ t.columns) e (rw (at_here l n) w)
      | no e ↦ rw (get_or-set_ne t.buffer here i l no_line e) (v.wide i low)
    ];
  }

  pub shown-replaced :
      (l : Line) (n : ℕ) → shown (replaced l n) ≡ (let s = shown t in record s { line = text_of l })
  shown-replaced l n =
      let lines = tabulate_ext (row_text (replaced l n)) (row_text t) 0 t.row (λ j low high.
        ap text_of (
          get_or-set_ne t.buffer here ((t.head + j) % t.rows) l no_line (λ e.
            absurd (
              distinct t.head j t.row t.rows v.head_inside (omega arith) v.row_inside (sym e))))) in
      ap (λ ls. record { above = ls; line = row_text (replaced l n) t.row }) lines
      ∙ ap (λ x. record { above = (shown t).above; line = text_of x }) (at_here l n)

  pub replaced-Shows :
      (l : Line) (n : ℕ)
      → length l.chars ≡ t.columns
      → l.len ≡ n
      → n < t.columns
      → Shows (replaced l n) (let s = shown t in record s { line = text_of l }) t.rows t.columns
  replaced-Shows l n w e h = record {
    screen = record {
      laid = replaced-IsLaid l n w;
      column_inside = h;
      cursor = ap (λ x. x.len) (at_here l n) ∙ e;
    };
    text = shown-replaced l n;
    same_rows = refl;
    same_columns = refl;
  }

  pub current-here : current t ≡ here
  current-here = ap (λ n. (t.head + t.row) % n) v.sized
