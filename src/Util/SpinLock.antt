-- ===== src/Util/SpinLock.antt =====
-- src/util/spinlock.hpp: the byte-sized lock. The weak exchange may fail without a reason; whether
-- it does is an input of each round (`spurious`).
pub mod Exclusion
use klee.Base.{ℕ, Bool, true, false, List, [], ◌∷◌, Option, none, some, ◌==◌, if◌then◌else◌}

pub record Exchange : Type 0 where
  pub flag : ℕ
  pub expected : ℕ
  pub exchanged : Bool

-- `flag.compare_exchange_weak(expected, desired)`: a failure writes what was seen into `expected`.
unfoldable pub compare_exchange_weak : Bool → ℕ → ℕ → ℕ → Exchange
compare_exchange_weak true flag expected desired = record {
  flag = flag;
  expected = flag;
  exchanged = false;
}
compare_exchange_weak false flag expected desired =
    if flag == expected
    then record { flag = desired; expected = expected; exchanged = true }
    else record { flag = flag; expected = flag; exchanged = false }

unfoldable pub try_aquire : Bool → ℕ → Exchange
unfolding compare_exchange_weak
try_aquire spurious flag = compare_exchange_weak spurious flag 0 1

-- The loop of `aquire` over the rounds to come, each with what the others left in the flag before
-- it; `none` means that the rounds ran out while it still spins.
unfoldable pub aquire_loop : List (Bool × ℕ) → ℕ → Option ℕ
unfolding compare_exchange_weak
aquire_loop [] expected = none
aquire_loop ((spurious, flag) ∷ rounds) expected =
    let r = compare_exchange_weak spurious flag expected 1 in
    let rest = aquire_loop rounds r.expected in if r.exchanged then some r.flag else rest

unfoldable pub aquire : List (Bool × ℕ) → Option ℕ
unfolding aquire_loop
aquire rounds = aquire_loop rounds 0

unfoldable pub release : ℕ → ℕ
release flag = 0
