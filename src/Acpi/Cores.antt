-- ===== src/Acpi/Cores.antt =====
-- src/acpi.hpp: the walk over the entries of the MADT.
use klee.Base.{
  ℕ, zero, suc, ◌+◌, ◌-◌, ◌<◌, ◌≡◌, refl, [], some, arith, ltb, ltb→lt, Bool-cases, inl, inr,
}
use klee.Acpi.{Memory, word32, DetectCoreResult, take_entry, detect_from, detect_cores}

-- Where the walk over the table finds an entry.
pub data IsEntry (m : Memory) (start stop : ℕ) : ℕ → Type 0 where
  first : IsEntry m start stop start
  after : (p : ℕ) → IsEntry m start stop p → p < stop → IsEntry m start stop (p + m (p + 1))

detect_from_ends :
    (m : Memory) (start stop : ℕ)
    → ((q : ℕ) → IsEntry m start stop q → q < stop → 0 < m (q + 1))
    → (fuel p : ℕ) (r : DetectCoreResult) → IsEntry m start stop p
    → stop - p < fuel
    → (r' : DetectCoreResult) × (detect_from fuel m p stop r ≡ some r')
detect_from_ends m start stop h zero p r e l = absurd (omega arith)
detect_from_ends m start stop h (suc fuel) p r e l = elim (Bool-cases (ltb p stop)) [
  | inl b ↦
      let inside = ltb→lt p stop b in
      let moves = h p e inside in
      rw b (
        detect_from_ends m start stop h fuel (p + m (p + 1)) (take_entry m p r) (after p e inside)
          (omega (arith, moves, inside)))
  | inr b ↦ rw b (r, refl)
]

-- The search for processors ends, for every MADT in which no entry that the walk meets has the length
-- 0: a round for each byte of the table and one more are enough.
pub detect_cores_returns :
    (m : Memory) (madt : ℕ)
    → ((q : ℕ)
        → IsEntry m (madt + 44) (madt + word32 m (madt + 4)) q
        → q < madt + word32 m (madt + 4)
        → 0 < m (q + 1))
    → (r : DetectCoreResult) × (detect_cores (suc (word32 m (madt + 4))) m madt ≡ some r)
unfolding detect_cores
detect_cores_returns m madt h =
    detect_from_ends m (madt + 44) (madt + word32 m (madt + 4)) h (suc (word32 m (madt + 4)))
      (madt + 44)
      (record { lapic_ids = []; lapic_address = word32 m (madt + 36); ioapic_address = 0 }) first
      (omega arith)
