-- ===== src/Acpi/Timer.antt =====
-- src/acpi.hpp: waits that end and waits that do not.
use klee.Base.{
  ℕ, ◌+◌, ◌*◌, ◌/◌, ◌^◌, ◌≤◌, ◌<◌, ◌≡◌, refl, true, List, [], ◌∷◌, none, arith, lt→ltb,
  le→ltb_false,
}
use klee.Acpi.{wait_above, end_of, wait_microseconds, pm_timer_freq}

unfoldable pub AllBelow : ℕ → List ℕ → Type 0
AllBelow limit [] = Unit
AllBelow limit (t ∷ ts) = (t < limit) × AllBelow limit ts

above_none :
    (stop limit : ℕ) (ts : List ℕ) → limit ≤ stop → AllBelow limit ts → wait_above stop ts ≡ none
unfolding AllBelow
above_none stop limit [] h a = refl
above_none stop limit (t ∷ ts) h (l, a) =
    rw (lt→ltb t stop (omega arith)) (above_none stop limit ts h a)

-- With a timer of 32 bits, a wait whose end is at 2 ^ 32 ticks or later never ends: the end is kept in
-- 64 bits and is not taken around with the timer. The sum fits 64 bits and the readings have 32.
pub wait_microseconds_never :
    (start us : ℕ) (readings : List ℕ)
    → start < 2 ^ 32
    → 2 ^ 32 ≤ start + pm_timer_freq * us / 1000000
    → pm_timer_freq * us < 2 ^ 64
    → start + pm_timer_freq * us / 1000000 < 2 ^ 64
    → AllBelow (2 ^ 32) readings
    → wait_microseconds true start readings us ≡ none
unfolding wait_microseconds
wait_microseconds_never start us readings s late product sum a =
    let stop : end_of true start us ≡ start + pm_timer_freq * us / 1000000 =
      omega (arith, product, sum) in
    rw (stop, le→ltb_false (start + pm_timer_freq * us / 1000000) start (omega arith))
      (above_none (start + pm_timer_freq * us / 1000000) (2 ^ 32) readings late a)
