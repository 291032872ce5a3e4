-- ===== src/Memory/Allocator/First.antt =====
-- src/memory/allocator.hpp: the run of frames that BitmapMemoryManager::allocate gives.
use klee.Base.{
  ℕ, zero, suc, ◌+◌, ◌-◌, ◌≤◌, ◌<◌, ◌≡◌, refl, ◌⊎◌, inl, inr, true, false, Option, none, some,
  arith, no_enough_memory, Result, ok, err, ltb, Bool-cases, ltb→lt, ltb_false→le, ℕ_discrete,
  dec_lt,
}
use klee.Memory.Bitmap.{BitmapMemoryManager, get_bit, set_bits}
use klee.Memory.Allocator.{
  Probe, beyond, taken, clear, probe, search_run, finish, allocate, SmartFrameId,
}

-- The `frames` frames from `start` are in the range and free.
abbrev pub IsFreeRun : BitmapMemoryManager → ℕ → ℕ → Type 0
IsFreeRun m frames start =
    (m.range_begin ≤ start)
    × ((j : ℕ) → j < frames → (start + j ≤ m.range_end) × (get_bit m (start + j) ≡ false))

abbrev NoRunBefore : BitmapMemoryManager → ℕ → ℕ → Type 0
NoRunBefore m frames limit = (s : ℕ) → s < limit → IsFreeRun m frames s → ⊥

abbrev Probed : BitmapMemoryManager → ℕ → ℕ → ℕ → Probe → Type 0
Probed m start rounds i beyond = (k : ℕ) × (k < i + rounds) × (m.range_end < start + k)
Probed m start rounds i (taken k) =
    (i ≤ k) × (k < i + rounds) × (start + k ≤ m.range_end) × (get_bit m (start + k) ≡ true)
Probed m start rounds i clear =
    (j : ℕ) → i ≤ j → j < i + rounds → (start + j ≤ m.range_end) × (get_bit m (start + j) ≡ false)

Probed-step :
    (m : BitmapMemoryManager) (start rounds i : ℕ) (p : Probe)
    → start + i ≤ m.range_end
    → get_bit m (start + i) ≡ false
    → Probed m start rounds (i + 1) p
    → Probed m start (suc rounds) i p
Probed-step m start rounds i beyond le e (k, a, b) = (k, omega arith, b)
Probed-step m start rounds i (taken k) le e (a, b, c, d) = (omega arith, omega arith, c, d)
Probed-step m start rounds i clear le e f = λ j a b. elim (ℕ_discrete i j) [
  | yes p ↦ rw (← p) (le, e)
  | no p ↦ f j (omega arith) (omega arith)
]

probe-Probed :
    (m : BitmapMemoryManager) (start rounds i : ℕ)
    → Probed m start rounds i (probe m start rounds i)
unfolding probe
probe-Probed m start zero i = λ j a b. absurd (omega arith)
probe-Probed m start (suc rounds) i = elim (Bool-cases (ltb m.range_end (start + i))) [
  | inl past ↦ rw past (i, omega arith, ltb→lt _ _ past)
  | inr inside ↦ elim (Bool-cases (get_bit m (start + i))) [
    | inl set ↦ rw (inside, set) (omega arith, omega arith, ltb_false→le _ _ inside, set)
    | inr unset ↦
        rw (inside, unset)
          (Probed-step m start rounds i _ (ltb_false→le _ _ inside) unset
            (probe-Probed m start rounds (i + 1)))
  ]
]

-- What the search gives from a start before which no run begins.
abbrev Found : BitmapMemoryManager → ℕ → Option (Option ℕ) → Type 0
Found m frames none = ⊥
Found m frames (some none) = (s : ℕ) → IsFreeRun m frames s → ⊥
Found m frames (some (some s)) = IsFreeRun m frames s × NoRunBefore m frames s

-- A probe that met a taken frame rules out each start up to that frame.
skip_taken :
    (m : BitmapMemoryManager) (frames start i : ℕ)
    → Probed m start frames 0 (taken i)
    → NoRunBefore m frames start
    → NoRunBefore m frames (start + (i + 1))
skip_taken m frames start i (a, b, c, d) early s lt run = elim (dec_lt s start) [
  | yes before ↦ early s before run
  | no after ↦
      let j = start + i - s in
      let e : s + j ≡ start + i = omega arith in
      let free : get_bit m (s + j) ≡ false = (run.1 j (omega arith)).1 in
      let full : get_bit m (s + j) ≡ true = rw e d in cc
]

stop_beyond :
    (m : BitmapMemoryManager) (frames start : ℕ)
    → Probed m start frames 0 beyond
    → NoRunBefore m frames start
    → (s : ℕ) → IsFreeRun m frames s
    → ⊥
stop_beyond m frames start (k, a, b) early s run = elim (dec_lt s start) [
  | yes before ↦ early s before run
  | no after ↦ let in_range = (run.1 k (omega arith)).0 in omega arith
]

search_run-Found :
    (m : BitmapMemoryManager) (frames fuel start : ℕ)
    → m.range_begin ≤ start
    → start ≤ m.range_end + 1
    → m.range_end + 2 ≤ start + fuel
    → NoRunBefore m frames start
    → Found m frames (search_run m frames fuel start)
unfolding search_run
search_run-Found m frames zero start a b c early = absurd (omega arith)
search_run-Found m frames (suc fuel) start a b c early =
    round (probe m start frames 0) (probe-Probed m start frames 0) λ i h.
      search_run-Found m frames fuel (start + (i + 1)) (omega arith) (omega arith) (omega arith)
        (skip_taken m frames start i h early)
  where
    round :
        (p : Probe)
        → Probed m start frames 0 p
        → ((i : ℕ)
            → Probed m start frames 0 (taken i)
            → Found m frames (search_run m frames fuel (start + (i + 1))))
        → Found m frames (elim p [
          | beyond ↦ some none
          | taken i ↦ search_run m frames fuel (start + (i + 1))
          | clear ↦ some (some start)
        ])
    round beyond h rest = stop_beyond m frames start h early
    round (taken i) h rest = rest i h
    round clear h rest = ((a, λ j lt. h j (omega arith) (omega arith)), early)

-- Allocating gives the first free run and marks it, or fails, changes nothing, and there is none.
abbrev pub AllocatesFirst :
    BitmapMemoryManager → ℕ → Option (Result SmartFrameId × BitmapMemoryManager) → Type 0
AllocatesFirst m frames r =
    ((s : ℕ) × (r ≡ some (ok (record { id = s; frames = frames }), set_bits m s frames true))
      × IsFreeRun m frames s
      × ((t : ℕ) → t < s → IsFreeRun m frames t → ⊥))
    ⊎ ((r ≡ some (err no_enough_memory, m)) × ((s : ℕ) → IsFreeRun m frames s → ⊥))

-- On a range that is not reversed, allocate returns. Either it gives the first run of `frames` free
-- frames in the range and marks exactly that run, or it fails with NoEnoughMemory, changes nothing,
-- and there is no such run.
pub allocate_first :
    (m : BitmapMemoryManager) (frames : ℕ)
    → m.range_begin ≤ m.range_end
    → AllocatesFirst m frames (allocate m frames)
unfolding allocate finish
allocate_first m frames h =
    split (search_run m frames (m.range_end + 2 - m.range_begin) m.range_begin) (
      search_run-Found m frames _ m.range_begin (omega arith) (omega arith) (omega arith)
        λ s lt run. absurd (omega (arith, run.0)))
  where
    split :
        (r : Option (Option ℕ))
        → Found m frames r
        → AllocatesFirst m frames (elim r [ none ↦ none | some q ↦ some (finish m frames q) ])
    split none f = absurd f
    split (some none) f = inr (refl, f)
    split (some (some s)) f = inl (s, refl, f.0, f.1)
