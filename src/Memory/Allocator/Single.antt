-- ===== src/Memory/Allocator/Single.antt =====
-- src/memory/allocator.hpp: the frame that BitmapMemoryManager::allocate_single gives.
use klee.Base.{
  ℕ, zero, suc, ◌+◌, ◌-◌, ◌≤◌, ◌<◌, ◌≡◌, refl, ◌⊎◌, inl, inr, true, false, arith, no_enough_memory,
  Result, ok, err, Bool-cases, ℕ_discrete,
}
use klee.Memory.Bitmap.{BitmapMemoryManager, get_bit, set_bit}
use klee.Memory.Allocator.{single_loop, allocate_single}

single_loop_cases :
    (m : BitmapMemoryManager) (n i : ℕ)
    → ((k : ℕ) × (single_loop m n i ≡ (ok k, set_bit m k true))
        × (i ≤ k)
        × (k < i + n)
        × (get_bit m k ≡ false)
        × ((j : ℕ) → i ≤ j → j < k → get_bit m j ≡ true))
      ⊎ ((single_loop m n i ≡ (err no_enough_memory, m))
          × ((j : ℕ) → i ≤ j → j < i + n → get_bit m j ≡ true))
unfolding single_loop
single_loop_cases m zero i = inr (refl, λ j a b. absurd (omega arith))
single_loop_cases m (suc n) i = elim (Bool-cases (get_bit m i)) [
  | inr unset ↦ inl (i, rw unset, omega arith, omega arith, unset, λ j a b. absurd (omega arith))
  | inl full ↦ elim (single_loop_cases m n (i + 1)) [
    | inl (k, e, a, b, c, d) ↦ inl (k, rw full e, omega arith, omega arith, c, grow full k d)
    | inr (e, d) ↦
        inr (rw full e, λ j a b. grow full (i + suc n) (λ j a b. d j a (omega arith)) j a b)
  ]
]
  where
    grow :
        get_bit m i ≡ true
        → (k : ℕ) → ((j : ℕ) → i + 1 ≤ j → j < k → get_bit m j ≡ true)
        → (j : ℕ) → i ≤ j
        → j < k
        → get_bit m j ≡ true
    grow full k d j a b = elim (ℕ_discrete i j) [
      | yes p ↦ rw (← p) full
      | no p ↦ d j (omega arith) b
    ]

-- Allocating gives the first free frame and marks it, or fails, changes nothing, and all are taken.
abbrev pub AllocatesSingle : BitmapMemoryManager → Result ℕ × BitmapMemoryManager → Type 0
AllocatesSingle m r =
    ((k : ℕ) × (r ≡ (ok k, set_bit m k true))
      × (m.range_begin ≤ k)
      × (k ≤ m.range_end)
      × (get_bit m k ≡ false)
      × ((j : ℕ) → m.range_begin ≤ j → j < k → get_bit m j ≡ true))
    ⊎ ((r ≡ (err no_enough_memory, m))
        × ((j : ℕ) → m.range_begin ≤ j → j ≤ m.range_end → get_bit m j ≡ true))

-- On a range that is not reversed, allocate_single either gives the first free frame of the range,
-- its end included, and marks that frame alone, or it fails with NoEnoughMemory, changes nothing,
-- and every frame of the range, its end included, is taken.
allocate_single_first :
    (m : BitmapMemoryManager) → m.range_begin ≤ m.range_end → AllocatesSingle m (allocate_single m)
unfolding allocate_single
allocate_single_first m h =
    elim (single_loop_cases m (m.range_end + 1 - m.range_begin) m.range_begin) [
      | inl (k, e, a, b, c, d) ↦ inl (k, e, a, omega arith, c, d)
      | inr (e, d) ↦ inr (e, λ j a b. d j a (omega arith))
    ]
