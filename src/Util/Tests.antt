-- ===== src/Util/Tests.antt =====
-- Runs of src/util: spinlock.hpp, dense-map.hpp and critical-queue.hpp.
use klee.Base.{ℕ, ◌≡◌, refl, true, false, List, [], ◌∷◌, Option, some, none, set}
use klee.Util.SpinLock.{compare_exchange_weak, try_aquire}
use klee.Util.SpinLock.Exclusion.{
  System, Step, takes, here, next, start, IsExclusive, try_aquire-IsExclusive,
}
use klee.Util.CriticalQueue.{CriticalQueue, push, swap, empty, new_queue}
use klee.Util.CriticalQueue.Order.{push_all, swap-push_all}
use klee.Util.DenseMap.{find_empty_slot}

-- Of two threads the first one takes the lock.
abbrev one_holds : System
one_holds = record { flag = (try_aquire false 0).flag; holding = set (false ∷ false ∷ []) 0 true }

one-Step : Step (start 2) one_holds
unfolding try_aquire compare_exchange_weak
one-Step = takes 0 false refl refl

try_aquire-IsExclusive_example : IsExclusive one_holds
try_aquire-IsExclusive_example = try_aquire-IsExclusive 2 (next here one-Step)

-- A map with a hole at 1.
abbrev holed : List (Option ℕ)
holed = some 7 ∷ none ∷ some 9 ∷ []

find_empty_slot-holed : find_empty_slot holed ≡ (1, holed)
unfolding find_empty_slot
find_empty_slot-holed = refl

abbrev used_queue : CriticalQueue ℕ
used_queue = push new_queue 5

swap-push_all_example :
    ((swap (push_all (swap used_queue).1 (1 ∷ 2 ∷ []))).0 ≡ 1 ∷ 2 ∷ [])
    × (empty (swap (push_all (swap used_queue).1 (1 ∷ 2 ∷ []))).1 ≡ true)
swap-push_all_example = swap-push_all used_queue (1 ∷ 2 ∷ [])
