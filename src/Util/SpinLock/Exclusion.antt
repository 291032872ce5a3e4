-- ===== src/Util/SpinLock/Exclusion.antt =====
-- src/util/spinlock.hpp: who can hold the lock at once.
use klee.Base.{
  ℕ, zero, suc, ◌≤◌, ◌≡◌, refl, Bool, true, false, List, [], ◌∷◌, some, arith, get_elem?, set,
  replicate,
}
use klee.Util.SpinLock.{compare_exchange_weak, try_aquire, aquire_loop, aquire, release}

-- The lock's flag and, for each thread, whether it is between taking and releasing the lock.
pub record System : Type 0 where
  pub flag : ℕ
  pub holding : List Bool

abbrev pub holders : List Bool → ℕ
holders [] = 0
holders (true ∷ hs) = suc (holders hs)
holders (false ∷ hs) = holders hs

-- Some thread takes the lock by a successful `try_aquire`, or its holder releases it.
pub data Step (s : System) : System → Type 0 where
  takes :
      (i : ℕ) (spurious : Bool)
      → get_elem? s.holding i ≡ some false
      → (try_aquire spurious s.flag).exchanged ≡ true
      → Step s (record { flag = (try_aquire spurious s.flag).flag; holding = set s.holding i true })
  fails :
      (spurious : Bool)
      → (try_aquire spurious s.flag).exchanged ≡ false
      → Step s (record { flag = (try_aquire spurious s.flag).flag; holding = s.holding })
  frees :
      (i : ℕ)
      → get_elem? s.holding i ≡ some true
      → Step s (record { flag = release s.flag; holding = set s.holding i false })

pub data Reach (s : System) : System → Type 0 where
  here : Reach s s
  next : {t u : System} → Reach s t → Step t u → Reach s u

abbrev pub start : ℕ → System
start n = record { flag = 0; holding = replicate n false }

-- The flag counts the holders, and there is at most one.
pub record IsExclusive (s : System) : Type 0 where
  pub counted : s.flag ≡ holders s.holding
  pub single : holders s.holding ≤ 1

holders-take :
    (hs : List Bool) (i : ℕ)
    → get_elem? hs i ≡ some false
    → holders (set hs i true) ≡ suc (holders hs)
holders-take [] i h = absurd (ground arith)
holders-take (b ∷ hs) zero h = ground arith
holders-take (true ∷ hs) (suc i) h = omega (arith, holders-take hs i h)
holders-take (false ∷ hs) (suc i) h = omega (arith, holders-take hs i h)

holders-free :
    (hs : List Bool) (i : ℕ)
    → get_elem? hs i ≡ some true
    → suc (holders (set hs i false)) ≡ holders hs
holders-free [] i h = absurd (ground arith)
holders-free (b ∷ hs) zero h = ground arith
holders-free (true ∷ hs) (suc i) h = omega (arith, holders-free hs i h)
holders-free (false ∷ hs) (suc i) h = omega (arith, holders-free hs i h)

holders-replicate : (n : ℕ) → holders (replicate n false) ≡ 0
holders-replicate zero = refl
holders-replicate (suc n) = holders-replicate n

Step-IsExclusive : {s t : System} → Step s t → IsExclusive s → IsExclusive t
unfolding try_aquire compare_exchange_weak release
Step-IsExclusive {s} (takes i spurious h e) v = ground (arith, holders-take s.holding i h)
Step-IsExclusive (fails spurious e) v = ground arith
Step-IsExclusive {s} (frees i h) v = ground (arith, holders-free s.holding i h)

Reach-IsExclusive : (n : ℕ) {s : System} → Reach (start n) s → IsExclusive s
Reach-IsExclusive n here = record {
  counted = omega (arith, holders-replicate n);
  single = omega (arith, holders-replicate n);
}
Reach-IsExclusive n (next r st) = Step-IsExclusive st (Reach-IsExclusive n r)

-- However many threads take the lock by try_aquire and release it, in any order, at most one
-- holds it, and the flag is 1 exactly when one does.
pub try_aquire-IsExclusive : (n : ℕ) {s : System} → Reach (start n) s → IsExclusive s
try_aquire-IsExclusive n r = Reach-IsExclusive n r

-- Whatever the flag holds and keeps holding, and even if the first exchange fails without reason,
-- `aquire` returns after two rounds at most, with the flag 1: a lock that another thread holds
-- throughout is taken a second time.
pub aquire_of_held :
    (flag : ℕ) (spurious : Bool) (rounds : List (Bool × ℕ))
    → aquire ((spurious, flag) ∷ (false, flag) ∷ rounds) ≡ some 1
unfolding aquire aquire_loop compare_exchange_weak
aquire_of_held flag true rounds = ground arith
aquire_of_held flag false rounds = ground arith
