-- ===== src/Terminal/Shell/Split.antt =====
-- src/terminal.hpp: what the shell's split gives.
use klee.Base.{
  ℕ, zero, suc, ◌≤◌, ◌<◌, ◌≡◌, ◌≢◌, refl, ap, ◌∙◌, true, false, List, [], ◌∷◌, ◌++◌, Option, some,
  length, length-append, arith, ◌==◌, ==_refl, ==_ne, if◌then◌else◌, Bool-cases, inl, inr,
}
use klee.Terminal.Shell.{is_quote, skip, until, next, still_open, argument, split_from, split}

-- The loop ends.
length-until : (stop : ℕ) (cs : List ℕ) → length (next (until stop cs).1) ≤ length cs
length-until stop [] = omega arith
length-until stop (c ∷ cs) = elim (Bool-cases (c == stop)) [
  | inl h ↦ rw h (omega arith)
  | inr h ↦ rw h (omega (arith, length-until stop cs))
]

argument-some :
    (a : List ℕ) {o : Option (List (List ℕ))}
    → ((r : List (List ℕ)) × (o ≡ some r))
    → (r : List (List ℕ)) × (argument a o ≡ some r)
argument-some a (r, e) = (a ∷ r, ap (argument a) e)

next-shorter : (stop c : ℕ) (cs : List ℕ) → length (next (until stop (c ∷ cs)).1) ≤ length cs
next-shorter stop c cs = elim (Bool-cases (c == stop)) [
  | inl h ↦ rw h (omega arith)
  | inr h ↦ rw h (length-until stop cs)
]

split_from_ends :
    (fuel qot : ℕ) (str : List ℕ)
    → length str < fuel
    → (r : List (List ℕ)) × (split_from fuel qot str ≡ some r)
unfolding split_from
split_from_ends zero qot str h = absurd (omega arith)
split_from_ends (suc fuel) qot [] h = ([], refl)
split_from_ends (suc fuel) qot (c ∷ cs) h =
    let quote' = if is_quote c then c else qot in
    let quoted = until quote' cs in
    elim (Bool-cases (quote' == 0)) [
      | inl z ↦ rw z (
          argument-some (until 32 (c ∷ cs)).0 (
            split_from_ends fuel 0 (next (until 32 (c ∷ cs)).1)
              (omega (arith, next-shorter 32 c cs))))
      | inr z ↦ rw z (
          argument-some quoted.0 (
            split_from_ends fuel (still_open quote' quoted.1) (next quoted.1)
              (omega (arith, length-until quote' cs))))
    ]

-- Cutting a line into arguments ends, for every line, open quotes included.
pub split_returns : (str : List ℕ) → (r : List (List ℕ)) × (split str ≡ some r)
unfolding split
split_returns str = split_from_ends (suc (length str)) 0 str (omega arith)

-- No character is `stop`.
unfoldable pub Avoids : ℕ → List ℕ → Type 0
Avoids stop [] = Unit
Avoids stop (c ∷ cs) = (c ≢ stop) × Avoids stop cs

-- A word has a first character, which is not a quote, and no spaces.
unfoldable pub IsWord : List ℕ → Type 0
IsWord [] = ⊥
IsWord (c ∷ cs) = (is_quote c ≡ false) × Avoids 32 (c ∷ cs)

unfoldable pub AllWords : List (List ℕ) → Type 0
AllWords [] = Unit
AllWords (w ∷ ws) = IsWord w × AllWords ws

-- Words with a space between two.
abbrev pub join : List (List ℕ) → List ℕ
join [] = []
join (w ∷ []) = w
join (w ∷ v ∷ ws) = w ++ 32 ∷ join (v ∷ ws)

until-append :
    (stop : ℕ) (w rest : List ℕ) → Avoids stop w → until stop (w ++ stop ∷ rest) ≡ (w, stop ∷ rest)
unfolding Avoids
until-append stop [] rest a = rw (==_refl stop) refl
until-append stop (c ∷ w) rest (n, a) =
    rw (==_ne c stop n) (ap (skip c) (until-append stop w rest a))

until_all : (stop : ℕ) (w : List ℕ) → Avoids stop w → until stop w ≡ (w, [])
unfolding Avoids
until_all stop [] a = refl
until_all stop (c ∷ w) (n, a) = rw (==_ne c stop n) (ap (skip c) (until_all stop w a))

split_from_word :
    (fuel c : ℕ) (cs : List ℕ)
    → is_quote c ≡ false
    → split_from (suc fuel) 0 (c ∷ cs)
      ≡ argument (until 32 (c ∷ cs)).0 (split_from fuel 0 (next (until 32 (c ∷ cs)).1))
unfolding split_from
split_from_word fuel c cs q = rw q refl

split_from-join :
    (fuel : ℕ) (ws : List (List ℕ))
    → AllWords ws
    → length (join ws) < fuel
    → split_from fuel 0 (join ws) ≡ some ws
unfolding split_from AllWords IsWord
split_from-join zero ws a h = absurd (omega arith)
split_from-join (suc fuel) [] a h = refl
split_from-join (suc fuel) ([] ∷ ws) (b, a) h = absurd b
split_from-join (suc fuel) ((c ∷ w) ∷ []) ((q, s), a) h =
    split_from_word fuel c w q
    ∙ ap (λ u. argument u.0 (split_from fuel 0 (next u.1))) (until_all 32 (c ∷ w) s)
    ∙ ap (argument (c ∷ w)) (split_from-join fuel [] tt (omega arith))
split_from-join (suc fuel) ((c ∷ w) ∷ v ∷ ws) ((q, s), a) h =
    split_from_word fuel c (w ++ 32 ∷ join (v ∷ ws)) q
    ∙ ap (λ u. argument u.0 (split_from fuel 0 (next u.1)))
        (until-append 32 (c ∷ w) (join (v ∷ ws)) s)
    ∙ ap (argument (c ∷ w)) (
        split_from-join fuel (v ∷ ws) a (omega (arith, length-append (c ∷ w) (32 ∷ join (v ∷ ws)))))

-- Words with a space between two are cut into these words.
pub split-join : (ws : List (List ℕ)) → AllWords ws → split (join ws) ≡ some ws
unfolding split
split-join ws a = split_from-join (suc (length (join ws))) ws a (omega arith)

split_from_space :
    (fuel : ℕ) (ws : List (List ℕ))
    → AllWords ws
    → suc (length (join ws)) < fuel
    → split_from fuel 0 (32 ∷ join ws) ≡ some ([] ∷ ws)
unfolding split_from
split_from_space zero ws a h = absurd (omega arith)
split_from_space (suc fuel) ws a h = ap (argument []) (split_from-join fuel ws a (omega arith))

-- Words with a space after each, and what follows them.
abbrev pub lead : List (List ℕ) → List ℕ → List ℕ
lead [] rest = rest
lead (w ∷ ws) rest = w ++ 32 ∷ lead ws rest

split_from-lead :
    (fuel : ℕ) (ws : List (List ℕ)) (rest : List ℕ) (r : List (List ℕ))
    → AllWords ws
    → ((fuel : ℕ) → length rest < fuel → split_from fuel 0 rest ≡ some r)
    → length (lead ws rest) < fuel
    → split_from fuel 0 (lead ws rest) ≡ some (ws ++ r)
unfolding AllWords IsWord
split_from-lead fuel [] rest r a is h = is fuel h
split_from-lead fuel ([] ∷ ws) rest r (b, a) is h = absurd b
split_from-lead zero ((c ∷ w) ∷ ws) rest r a is h = absurd (omega arith)
split_from-lead (suc fuel) ((c ∷ w) ∷ ws) rest r ((q, s), a) is h =
    split_from_word fuel c (w ++ 32 ∷ lead ws rest) q
    ∙ ap (λ u. argument u.0 (split_from fuel 0 (next u.1)))
        (until-append 32 (c ∷ w) (lead ws rest) s)
    ∙ ap (argument (c ∷ w)) (
        split_from-lead fuel ws rest r a is
          (omega (arith, length-append (c ∷ w) (32 ∷ lead ws rest))))

is_quote-ne : (q : ℕ) → is_quote q ≡ true → (q == 0) ≡ false
is_quote-ne q h = ground (arith, h)

split_from_quote :
    (fuel q : ℕ) (cs : List ℕ)
    → is_quote q ≡ true
    → split_from (suc fuel) 0 (q ∷ cs)
      ≡ argument
          (until q cs).0
          (split_from fuel (still_open q (until q cs).1) (next (until q cs).1))
unfolding split_from
split_from_quote fuel q cs h = rw (h, is_quote-ne q h) refl

split_from_quoted :
    (q : ℕ) (w : List ℕ) (ws : List (List ℕ)) (fuel : ℕ)
    → is_quote q ≡ true
    → Avoids q w
    → AllWords ws
    → length (q ∷ (w ++ q ∷ 32 ∷ join ws)) < fuel
    → split_from fuel 0 (q ∷ (w ++ q ∷ 32 ∷ join ws)) ≡ some (w ∷ [] ∷ ws)
split_from_quoted q w ws zero h s a l = absurd (omega arith)
split_from_quoted q w ws (suc fuel) h s a l =
    split_from_quote fuel q (w ++ q ∷ 32 ∷ join ws) h
    ∙ ap (λ u. argument u.0 (split_from fuel (still_open q u.1) (next u.1)))
        (until-append q w (32 ∷ join ws) s)
    ∙ ap (argument w)
        (split_from_space fuel ws a (omega (arith, length-append w (q ∷ 32 ∷ join ws))))

-- In a line of plain words, a quoted argument and plain words again, with a space between two, the
-- space that follows the closing quote, of either kind, makes an empty argument: the code stops at the
-- closing quote and takes the space for the next argument. A plain word has no spaces and does not
-- start with a quote; the quoted argument does not contain its own kind of quote.
pub split_quoted :
    (before : List (List ℕ)) (q : ℕ) (w : List ℕ) (ws : List (List ℕ))
    → AllWords before
    → is_quote q ≡ true
    → Avoids q w
    → AllWords ws
    → split (lead before (q ∷ (w ++ q ∷ 32 ∷ join ws))) ≡ some (before ++ w ∷ [] ∷ ws)
unfolding split
split_quoted before q w ws b h s a =
    split_from-lead (suc (length (lead before (q ∷ (w ++ q ∷ 32 ∷ join ws))))) before
      (q ∷ (w ++ q ∷ 32 ∷ join ws)) (w ∷ [] ∷ ws) b
      (λ fuel l. split_from_quoted q w ws fuel h s a l) (omega arith)
