-- ===== src/Terminal/Screen/Texts.antt =====
-- src/terminal.hpp: lines of text as lists.
use klee.Base.{
  ℕ, zero, suc, ◌+◌, ◌≤◌, ◌<◌, ◌≡◌, refl, ap, ◌∙◌, List, [], ◌∷◌, ◌++◌, length, take, set, arith,
}
use klee.Terminal.Screen.{tabulate, unsnoc}

pub tabulate_ext :
    (f g : ℕ → List ℕ) (i count : ℕ)
    → ((j : ℕ) → i ≤ j → j < i + count → f j ≡ g j)
    → tabulate f i count ≡ tabulate g i count
tabulate_ext f g i zero h = refl
tabulate_ext f g i (suc count) h =
    rw
      (
        h i (omega arith) (omega arith),
        tabulate_ext f g (suc i) count (λ j low high. h j (omega arith) (omega arith)),
      )
      refl

pub tabulate_snoc :
    (f : ℕ → List ℕ) (i count : ℕ)
    → tabulate f i (suc count) ≡ tabulate f i count ++ f (i + count) ∷ []
tabulate_snoc f i zero = let e : i ≡ i + 0 = omega arith in ap (λ j. f j ∷ []) e
tabulate_snoc f i (suc count) =
    let e : suc i + count ≡ i + suc count = omega arith in
    ap (◌∷◌ (f i))
      (tabulate_snoc f (suc i) count ∙ ap (λ j. tabulate f (suc i) count ++ f j ∷ []) e)

pub tabulate_shift :
    (f : ℕ → List ℕ) (i count : ℕ) → tabulate (λ j. f (suc j)) i count ≡ tabulate f (suc i) count
tabulate_shift f i zero = refl
tabulate_shift f i (suc count) = ap (◌∷◌ (f (suc i))) (tabulate_shift f (suc i) count)

pub length-tabulate : (f : ℕ → List ℕ) (i count : ℕ) → length (tabulate f i count) ≡ count
length-tabulate f i zero = refl
length-tabulate f i (suc count) = ap suc (length-tabulate f (suc i) count)

pub take-set :
    (cs : List ℕ) (n c : ℕ) → n < length cs → take (suc n) (set cs n c) ≡ take n cs ++ c ∷ []
take-set [] n c h = absurd (omega arith)
take-set (d ∷ cs) zero c h = refl
take-set (d ∷ cs) (suc n) c h = ap (◌∷◌ d) (take-set cs n c (omega arith))

pub length-take : (n : ℕ) (cs : List ℕ) → n ≤ length cs → length (take n cs) ≡ n
length-take zero cs h = refl
length-take (suc n) [] h = absurd (omega arith)
length-take (suc n) (c ∷ cs) h = ap suc (length-take n cs (omega arith))

pub unsnoc-take : (n : ℕ) (cs : List ℕ) → suc n ≤ length cs → unsnoc (take (suc n) cs) ≡ take n cs
unsnoc-take zero [] h = absurd (omega arith)
unsnoc-take zero (c ∷ cs) h = refl
unsnoc-take (suc n) [] h = absurd (omega arith)
unsnoc-take (suc n) (c ∷ []) h = absurd (omega arith)
unsnoc-take (suc n) (c ∷ d ∷ cs) h = ap (◌∷◌ c) (unsnoc-take n (d ∷ cs) (omega arith))
