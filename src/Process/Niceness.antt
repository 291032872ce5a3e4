-- ===== src/Process/Niceness.antt =====
-- src/process/manager.hpp: niceness, and the run queue that it selects.
use klee.Base.{refl, ℕ, suc, ◌+◌, ◌-◌, ◌%◌, ◌^◌, ◌<◌, ◌≡◌, Bool, true, false, arith, leb, ◌==◌, ◌*◌}

-- int32_t; `negsuc n` is -(n + 1).
pub data Nice : Type 0 where
  pos : ℕ → Nice
  negsuc : ℕ → Nice

abbrev pub max_nice : ℕ
max_nice = 2

-- std::numeric_limits<Nice>::max()
abbrev pub invalid_nice : Nice
invalid_nice = pos (2 ^ 31 - 1)

abbrev pub nice_eq : Nice → Nice → Bool
nice_eq (pos a) (pos b) = a == b
nice_eq (pos a) (negsuc b) = false
nice_eq (negsuc a) (pos b) = false
nice_eq (negsuc a) (negsuc b) = a == b

-- `nice + max_nice`, taken as a size_t
abbrev pub nice_to_index : Nice → ℕ
nice_to_index (pos n) = n + max_nice
nice_to_index (negsuc n) = (2 ^ 64 + max_nice - suc n) % 2 ^ 64

abbrev pub is_valid_nice : Nice → Bool
is_valid_nice (pos n) = leb n max_nice
is_valid_nice (negsuc n) = leb (suc n) max_nice

-- The number of run queues of a processor.
abbrev pub queues : ℕ
queues = max_nice * 2 + 1

-- A valid niceness selects a queue.
pub nice_to_index-lt : (n : Nice) → is_valid_nice n ≡ true → nice_to_index n < queues
nice_to_index-lt (pos n) h = ground arith
nice_to_index-lt (negsuc n) h = ground arith

-- And is a niceness given: not the default of wakeup_thread.
pub is_valid_nice-given : (n : Nice) → is_valid_nice n ≡ true → nice_eq n invalid_nice ≡ false
is_valid_nice-given (pos n) h = ground arith
is_valid_nice-given (negsuc n) h = refl
