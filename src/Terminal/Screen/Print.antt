-- ===== src/Terminal/Screen/Print.antt =====
-- src/terminal.hpp: putc, on the text that the screen shows.
use native.Mathlib.Nat.{mod-lt}
use klee.Base.{
  ℕ, suc, ◌+◌, ◌-◌, ◌≡◌, ◌≢◌, refl, sym, ap, ◌∙◌, subst, Bool, true, false, [], ◌∷◌, ◌++◌, length,
  length-set, length-append, take, set, arith, ◌==◌, ==_refl, ==_ne, if◌then◌else◌, ℕ_discrete,
  Bool-cases, inl, inr,
}
use klee.Terminal.{
  Terminal, Line, line_at, newline, print_char, put_char, backspace, erase_char, set_len,
  handle_char, putc,
}
use klee.Terminal.Screen.{break, print, unsnoc, type_char, text_of, shown, IsScreen}
use klee.Terminal.Screen.Core.{core}
use klee.Terminal.Screen.Texts.{take-set, length-take, unsnoc-take}
use klee.Terminal.Screen.Shows.{Shows, Shows-drawn}
use klee.Terminal.Screen.Break.{newline-Shows}
use klee.Terminal.Screen.Replaced.{
  here, replaced, replaced-IsLaid, shown-replaced, replaced-Shows, current-here,
}

module _ (t : Terminal) (v : IsScreen t) where
  abbrev line : Line
  line = line_at t (here t v.laid)

  wide_line : length line.chars ≡ t.columns
  wide_line =
      let i = v.laid.row_inside in
      v.laid.wide (here t v.laid) (mod-lt (t.head + t.row) (omega arith))

  abbrev longer : ℕ → Line
  longer c = record { chars = set line.chars t.column c; len = line.len + 1 }

  text_of-longer : (c : ℕ) → text_of (longer c) ≡ text_of line ++ c ∷ []
  text_of-longer c =
      let e : line.len + 1 ≡ suc t.column = omega (arith, v.cursor) in
      ap (λ n. take n (set line.chars t.column c)) e
      ∙ take-set line.chars t.column c (omega (arith, wide_line, v.column_inside))
      ∙ ap (λ n. take n line.chars ++ c ∷ []) (sym v.cursor)

  length-text : length (text_of line) ≡ t.column
  length-text =
      length-take line.len line.chars (omega (arith, wide_line, v.column_inside, v.cursor))
      ∙ v.cursor

  wide-longer : (c : ℕ) → length (longer c).chars ≡ t.columns
  wide-longer c = length-set line.chars t.column c ∙ wide_line

  length-longer : (c : ℕ) → length (text_of line ++ c ∷ []) ≡ t.column + 1
  length-longer c = omega (arith, length-append (text_of line) (c ∷ []), length-text)

  put_char-replaced : (c : ℕ) → put_char t c ≡ replaced t v.laid (longer c) t.column
  put_char-replaced c =
      ap
        (λ i. record t {
          buffer =
              set t.buffer i (record {
                chars = set (line_at t i).chars t.column c;
                len = (line_at t i).len + 1;
              });
        })
        (current-here t v.laid)

  core-print_char :
      (c : ℕ)
      → t.column + 1 ≢ t.columns
      → core (print_char t c) ≡ core (replaced t v.laid (longer c) (t.column + 1))
  unfolding print_char
  core-print_char c h =
      let moved : core (print_char t c)
          ≡ core (let t' = put_char t c in record t' { column = t.column + 1 }) =
        elim (Bool-cases (t.column == 0)) [
          | inl z ↦ rw (==_ne (t.column + 1) t.columns h, z) refl
          | inr z ↦ rw (==_ne (t.column + 1) t.columns h, z) refl
        ] in
      moved ∙ ap (λ t'. core (record t' { column = t.column + 1 })) (put_char-replaced c)

  print_char-newline :
      (c : ℕ)
      → t.column + 1 ≡ t.columns
      → print_char t c ≡ newline (replaced t v.laid (longer c) t.column)
  unfolding print_char
  print_char-newline c h = rw (h, ==_refl t.columns) (ap newline (put_char-replaced c))

  print_inside :
      (c : ℕ)
      → t.column + 1 ≢ t.columns
      → print t.rows t.columns (shown t) c
        ≡ (let s = shown t in record s { line = text_of line ++ c ∷ [] })
  print_inside c h = rw (length-longer c, ==_ne (t.column + 1) t.columns h) refl

  print_last :
      (c : ℕ)
      → t.column + 1 ≡ t.columns
      → print t.rows t.columns (shown t) c
        ≡ break t.rows (let s = shown t in record s { line = text_of line ++ c ∷ [] })
  print_last c h = rw (length-longer c, h, ==_refl t.columns) refl

  print_char-Shows :
      (c : ℕ) → Shows (print_char t c) (print t.rows t.columns (shown t) c) t.rows t.columns
  print_char-Shows c = elim (ℕ_discrete (t.column + 1) t.columns) [
    | yes h ↦
        let t' = replaced t v.laid (longer c) t.column in
        let w =
          newline-Shows t' (replaced-IsLaid t v.laid (longer c) t.column (wide-longer c))
            (omega (arith, h)) in
        rw (print_char-newline c h, print_last c h)
          (subst (λ s. Shows (newline t') (break t.rows s) t.rows t.columns) (shown_longer t.column)
            w)
    | no h ↦
        let i = v.column_inside in
        let w =
          replaced-Shows t v.laid (longer c) (t.column + 1) (wide-longer c)
            (ap (λ n. n + 1) v.cursor) (omega (arith, h)) in
        Shows-drawn (print_char t c) (replaced t v.laid (longer c) (t.column + 1)) _ t.rows
          t.columns (core-print_char c h)
          (subst (λ s. Shows (replaced t v.laid (longer c) (t.column + 1)) s t.rows t.columns)
            (ap (λ l. record { above = (shown t).above; line = l }) (text_of-longer c)
              ∙ sym (print_inside c h))
            w)
  ]
    where
      shown_longer :
          (n : ℕ)
          → shown (replaced t v.laid (longer c) n)
            ≡ (let s = shown t in record s { line = text_of line ++ c ∷ [] })
      shown_longer n =
          shown-replaced t v.laid (longer c) n
          ∙ ap (λ l. record { above = (shown t).above; line = l }) (text_of-longer c)

  abbrev shorter : Line
  shorter = let l = line in record l { len = l.len - 1 }

  text_of-shorter : t.column ≢ 0 → text_of shorter ≡ unsnoc (text_of line)
  text_of-shorter h =
      let e : line.len ≡ suc (line.len - 1) = omega (arith, h, v.cursor) in
      sym (
        unsnoc-take (line.len - 1) line.chars
          (omega (arith, wide_line, v.column_inside, v.cursor, e)))
      ∙ ap (λ n. unsnoc (take n line.chars)) (sym e)

  core-backspace :
      t.column ≢ 0 → core (backspace t) ≡ core (replaced t v.laid shorter (t.column - 1))
  unfolding backspace
  core-backspace h = rw (==_ne t.column 0 h) (
      ap
        (λ i.
          core
            (let t' = set_len t i ((line_at t i).len - 1) in record t' { column = t.column - 1 }))
        (current-here t v.laid))

  backspace_none : t.column ≡ 0 → backspace t ≡ t
  unfolding backspace
  backspace_none h = ap (λ b. if b then t else erase_char t) (ap (λ n. n == 0) h)

  erased_none : t.column ≡ 0 → unsnoc (text_of line) ≡ text_of line
  erased_none h =
      let e : text_of line ≡ [] = ap (λ n. take n line.chars) (v.cursor ∙ h) in rw e refl

  self-Shows : Shows t (shown t) t.rows t.columns
  self-Shows = record { screen = v; text = refl; same_rows = refl; same_columns = refl }

  backspace-Shows :
      Shows (backspace t) (let s = shown t in record s { line = unsnoc s.line }) t.rows t.columns
  backspace-Shows = elim (ℕ_discrete t.column 0) [
    | yes h ↦ rw (backspace_none h) (
        subst (λ l. Shows t (let s = shown t in record s { line = l }) t.rows t.columns)
          (sym (erased_none h)) self-Shows)
    | no h ↦
        let i = v.column_inside in
        Shows-drawn (backspace t) (replaced t v.laid shorter (t.column - 1)) _ t.rows t.columns
          (core-backspace h)
          (subst
            (λ l.
              Shows (replaced t v.laid shorter (t.column - 1))
                (let s = shown t in record s { line = l }) t.rows t.columns)
            (text_of-shorter h)
            (replaced-Shows t v.laid shorter (t.column - 1) wide_line (ap (λ n. n - 1) v.cursor)
              (omega arith)))
  ]

  handle_char-Shows :
      (c : ℕ) → Shows (handle_char t c) (type_char t.rows t.columns (shown t) c) t.rows t.columns
  handle_char-Shows c =
      let i = v.column_inside in
      elim (Bool-cases (c == 10)) [
        | inl h ↦ rw h (newline-Shows t v.laid (omega arith))
        | inr h ↦ elim (Bool-cases (c == 8)) [
          | inl k ↦ rw (h, k) backspace-Shows
          | inr k ↦ rw (h, k) (print_char-Shows c)
        ]
      ]

  pub putc-Shows :
      (c : ℕ) (b : Bool)
      → Shows (putc t c b) (type_char t.rows t.columns (shown t) c) t.rows t.columns
  unfolding putc
  putc-Shows c true =
      Shows-drawn (putc t c true) (handle_char t c) _ t.rows t.columns refl (handle_char-Shows c)
  putc-Shows c false = handle_char-Shows c
