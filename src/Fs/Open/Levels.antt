-- ===== src/Fs/Open/Levels.antt =====
-- src/fs/handle.hpp and src/fs/manager.hpp: how many handles read and write, and what a level allows.
use klee.Base.{
  ℕ, ◌+◌, ◌≤◌, ◌≡◌, refl, ◌⊎◌, Bool, false, List, [], ◌∷◌, ◌++◌, arith, if◌then◌else◌, is_error,
  length,
}
use klee.Fs.Open.{OpenMode, OpenLevel, block, single, multi, check_level}

-- How many of the handles read, and how many write.
abbrev pub readers : List OpenMode → ℕ
readers [] = 0
readers (mode ∷ hs) = (if mode.read then 1 else 0) + readers hs

abbrev pub writers : List OpenMode → ℕ
writers [] = 0
writers (mode ∷ hs) = (if mode.write then 1 else 0) + writers hs

abbrev pub Allows : OpenLevel → ℕ → Type 0
Allows block n = n ≡ 0
Allows single n = n ≤ 1
Allows multi n = Unit

pub readers-length : (hs : List OpenMode) → readers hs ≤ length hs
readers-length [] = omega arith
readers-length (mode ∷ hs) = ground (arith, readers-length hs)

pub writers-length : (hs : List OpenMode) → writers hs ≤ length hs
writers-length [] = omega arith
writers-length (mode ∷ hs) = ground (arith, writers-length hs)

pub readers-remove :
    (before after : List OpenMode) (mode : OpenMode)
    → readers (before ++ mode ∷ after) ≡ (if mode.read then 1 else 0) + readers (before ++ after)
readers-remove [] after mode = refl
readers-remove (h ∷ before) after mode = omega (arith, readers-remove before after mode)

pub writers-remove :
    (before after : List OpenMode) (mode : OpenMode)
    → writers (before ++ mode ∷ after) ≡ (if mode.write then 1 else 0) + writers (before ++ after)
writers-remove [] after mode = refl
writers-remove (h ∷ before) after mode = omega (arith, writers-remove before after mode)

pub Allows-opens :
    (level : OpenLevel) (exclusive : Bool) (same other n : ℕ)
    → is_error (check_level level exclusive same other) ≡ false
    → same ≡ n
    → Allows level (1 + n)
Allows-opens block exclusive same other n h e = absurd (cc)
Allows-opens single exclusive same other n h e = ground (arith, h, e)
Allows-opens multi exclusive same other n h e = record {}

pub Allows-less : (level : OpenLevel) (n m : ℕ) → Allows level n → m ≤ n → Allows level m
Allows-less block n m h le = omega (arith, h, le)
Allows-less single n m h le = omega (arith, h, le)
Allows-less multi n m h le = record {}

pub excludes :
    (level : OpenLevel) (exclusive : Bool) (same other : ℕ)
    → is_error (check_level level exclusive same other) ≡ false
    → (exclusive ≡ false) ⊎ (other ≡ 0)
excludes block exclusive same other h = absurd (cc)
excludes single exclusive same other h = ground (arith, h)
excludes multi exclusive same other h = ground (arith, h)

pub exclusion_less :
    (exclusive : Bool) (r w r' w' : ℕ)
    → (exclusive ≡ false) ⊎ (r ≡ 0) ⊎ (w ≡ 0) ⊎ ((r ≡ 1) × (w ≡ 1))
    → r' ≤ r
    → w' ≤ w
    → (exclusive ≡ false) ⊎ (r' ≡ 0) ⊎ (w' ≡ 0) ⊎ ((r' ≡ 1) × (w' ≡ 1))
exclusion_less exclusive r w r' w' h le le' = ground (arith, h, le, le')

pub Allows-none : (level : OpenLevel) → Allows level 0
Allows-none block = refl
Allows-none single = omega arith
Allows-none multi = record {}
