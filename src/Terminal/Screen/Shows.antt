-- ===== src/Terminal/Screen/Shows.antt =====
-- src/terminal.hpp: a terminal in order that shows a text.
use klee.Base.{ℕ, ◌≡◌, sym, subst}
use klee.Terminal.{Terminal}
use klee.Terminal.Screen.{Text, shown, IsScreen}
use klee.Terminal.Screen.Core.{core}

-- What a step makes of a terminal: what it shows is `s`, and it is in order.
pub record Shows (t : Terminal) (s : Text) (rows columns : ℕ) : Type 0 where
  pub screen : IsScreen t
  pub text : shown t ≡ s
  pub same_rows : t.rows ≡ rows
  pub same_columns : t.columns ≡ columns

pub Shows-core :
    (t t' : Terminal) (s : Text) (rows columns : ℕ)
    → core t ≡ t'
    → Shows t' s rows columns
    → Shows t s rows columns
Shows-core t t' s rows columns e w =
    let w' : Shows (core t) s rows columns = subst (λ x. Shows x s rows columns) (sym e) w in
    let l = w'.screen.laid in
    record {
      screen = record {
        laid = record {
          sized = l.sized;
          row_inside = l.row_inside;
          head_inside = l.head_inside;
          tail_behind = l.tail_behind;
          wide = l.wide;
        };
        column_inside = w'.screen.column_inside;
        cursor = w'.screen.cursor;
      };
      text = w'.text;
      same_rows = w'.same_rows;
      same_columns = w'.same_columns;
    }

-- What was drawn makes no difference.
pub Shows-drawn :
    (t t' : Terminal) (s : Text) (rows columns : ℕ)
    → core t ≡ core t'
    → Shows t' s rows columns
    → Shows t s rows columns
Shows-drawn t t' s rows columns e w =
    let l = w.screen.laid in
    Shows-core t (core t') s rows columns e record {
      screen = record {
        laid = record {
          sized = l.sized;
          row_inside = l.row_inside;
          head_inside = l.head_inside;
          tail_behind = l.tail_behind;
          wide = l.wide;
        };
        column_inside = w.screen.column_inside;
        cursor = w.screen.cursor;
      };
      text = w.text;
      same_rows = w.same_rows;
      same_columns = w.same_columns;
    }
