-- ===== src/Util/DenseMap.antt =====
-- src/util/dense-map.hpp at the types that the kernel uses it with: keys of 32 bits, and slots that
-- are valid when they hold something (`std::unique_ptr`, `std::optional`).
pub mod Slots
use klee.Base.{
  ℕ, zero, suc, ◌+◌, ◌-◌, ◌%◌, ◌^◌, Bool, true, false, not, ◌&&◌, List, [], ◌∷◌, ◌++◌, Option, none,
  some, ltb, if◌then◌else◌, is_some, get_or, set, length, replicate, take,
}

-- `K(n)` for a key of type uint32_t.
abbrev pub key : ℕ → ℕ
key n = n % 2 ^ 32

module _ {ℓ} {T : Type ℓ} where
  -- DefaultValidator
  abbrev pub is_valid : Option T → Bool
  is_valid d = is_some d

  -- `std::vector::resize`
  abbrev pub resize : ℕ → List (Option T) → List (Option T)
  resize n d = take n d ++ replicate (n - length d) none

  -- The rounds left of the loop of find_empty_slot, and its index.
  unfoldable pub scan : List (Option T) → ℕ → ℕ → Option ℕ
  scan d zero i = none
  scan d (suc rounds) i = if not (is_valid (get_or d i none)) then some i else scan d rounds (i + 1)

  -- The slot that the loop found, or one more at the end.
  unfoldable pub place : List (Option T) → ℕ → Option ℕ → ℕ × List (Option T)
  place d limit (some i) = (i, d)
  place d limit none = (limit, resize (key (limit + 1)) d)

  unfoldable pub find_empty_slot : List (Option T) → ℕ × List (Option T)
  unfolding scan place
  find_empty_slot d = let limit = key (length d) in place d limit (scan d limit 0)

  abbrev pub contains : List (Option T) → ℕ → Bool
  contains d k = ltb k (length d) && is_some (get_or d k none)

  unfoldable pub is_empty : List (Option T) → Bool
  is_empty [] = true
  is_empty (x ∷ d) = if is_valid x then false else is_empty d
