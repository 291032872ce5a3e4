-- ===== src/Terminal/Screen/Around.antt =====
-- src/terminal.hpp: places around the ring of lines.
use native.Mathlib.Nat.{mod-lt, mod-eq_of_lt, add-mod_right, mod-add-mod}
use klee.Base.{
  ℕ, suc, ◌+◌, ◌-◌, ◌%◌, ◌≤◌, ◌<◌, ◌≡◌, ◌≢◌, ◌⊎◌, inl, inr, sym, ap, ◌∙◌, arith, dec_lt, ◌==◌,
  if◌then◌else◌, ==_ne,
}

pub around : (x n : ℕ) → x < n + n → ((x < n) × (x % n ≡ x)) ⊎ ((n ≤ x) × (x % n + n ≡ x))
around x n h = elim (dec_lt x n) [
  | yes l ↦ inl (l, mod-eq_of_lt l)
  | no l ↦
      let s : x ≡ x - n + n = omega arith in
      let m : (x - n) % n ≡ x - n = mod-eq_of_lt (omega arith) in
      let e = ap (λ y. y % n) s ∙ add-mod_right (x - n) n in inr (omega arith, omega (arith, e, m))
]

pub distinct : (h i j n : ℕ) → h < n → i < j → j < n → (h + i) % n ≢ (h + j) % n
distinct h i j n a b c e = elim (around (h + i) n (omega arith)) [
  | inl (p, x) ↦ elim (around (h + j) n (omega arith)) [
    | inl (q, y) ↦ absurd (omega (arith, x, y, e))
    | inr (q, y) ↦ absurd (omega (arith, x, y, e))
  ]
  | inr (p, x) ↦ elim (around (h + j) n (omega arith)) [
    | inl (q, y) ↦ absurd (omega (arith, p, q))
    | inr (q, y) ↦ absurd (omega (arith, x, y, e))
  ]
]

pub further : (h i n : ℕ) → ((h + 1) % n + i) % n ≡ (h + suc i) % n
further h i n =
    let e : h + 1 + i ≡ h + suc i = omega arith in mod-add-mod (h + 1) n i ∙ ap (λ x. x % n) e

pub full_turn : (h n : ℕ) → h < n → (h + n) % n ≡ h
full_turn h n l = add-mod_right h n ∙ mod-eq_of_lt l

-- One before the next.
pub before_next : (t n : ℕ) → 0 < n → (if (t + 1) % n == 0 then n - 1 else (t + 1) % n - 1) ≡ t % n
before_next t n h =
    let l = mod-lt t h in
    let e : (t + 1) % n ≡ (t % n + 1) % n = sym (mod-add-mod t n 1) in
    elim (around (t % n + 1) n (omega (arith, l))) [
      | inl (p, x) ↦ rw (e, x, ==_ne (t % n + 1) 0 (λ q. absurd (omega (arith, q)))) (omega arith)
      | inr (p, x) ↦
          let z : (t % n + 1) % n ≡ 0 = omega (arith, l, x) in rw (e, z) (omega (arith, l, p))
    ]
