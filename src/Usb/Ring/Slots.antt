-- ===== src/Usb/Ring/Slots.antt =====
-- src/usb/xhci/ring.hpp: stretches of a ring's memory.
use klee.Base.{
  ℕ, zero, suc, ◌+◌, ◌≤◌, ◌<◌, ◌≡◌, refl, ap, List, [], ◌∷◌, ◌++◌, get_or, set, length, arith,
  subst, get_or-set_ne,
}
use klee.Usb.Ring.{Trb, zero_trb}

abbrev pub at : List Trb → ℕ → Trb
at buffer i = get_or buffer i zero_trb

-- The `count` TRBs from index `i` on.
abbrev pub slots : List Trb → ℕ → ℕ → List Trb
slots buffer i zero = []
slots buffer i (suc count) = at buffer i ∷ slots buffer (suc i) count

pub slots_snoc :
    (buffer : List Trb) (i count : ℕ)
    → slots buffer i (suc count) ≡ slots buffer i count ++ at buffer (i + count) ∷ []
slots_snoc buffer i zero = ap (λ j. at buffer j ∷ []) (omega arith)
slots_snoc buffer i (suc count) =
    let e : suc i + count ≡ i + suc count = omega arith in
    ap (◌∷◌ (at buffer i)) (
      subst (λ j. slots buffer (suc i) (suc count) ≡ slots buffer (suc i) count ++ at buffer j ∷ [])
        e (slots_snoc buffer (suc i) count))

pub slots-set_past :
    (buffer : List Trb) (i count j : ℕ) (t : Trb)
    → i + count ≤ j
    → slots (set buffer j t) i count ≡ slots buffer i count
slots-set_past buffer i zero j t h = refl
slots-set_past buffer i (suc count) j t h =
    rw
      (
        get_or-set_ne buffer j i t zero_trb (λ e. absurd (omega (arith, e))),
        slots-set_past buffer (suc i) count j t (omega arith),
      )
      refl

pub slots-set_before :
    (buffer : List Trb) (i count j : ℕ) (t : Trb)
    → j < i
    → slots (set buffer j t) i count ≡ slots buffer i count
slots-set_before buffer i zero j t h = refl
slots-set_before buffer i (suc count) j t h =
    rw
      (
        get_or-set_ne buffer j i t zero_trb (λ e. absurd (omega (arith, e))),
        slots-set_before buffer (suc i) count j t (omega arith),
      )
      refl

pub length-slots : (buffer : List Trb) (i count : ℕ) → length (slots buffer i count) ≡ count
length-slots buffer i zero = refl
length-slots buffer i (suc count) = ap suc (length-slots buffer (suc i) count)
