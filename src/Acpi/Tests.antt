-- ===== src/Acpi/Tests.antt =====
-- Runs of src/acpi.hpp: a MADT of 60 bytes with two processors, of which the second is not enabled.
use klee.Base.{
  ℕ, suc, ◌+◌, ◌^◌, ◌≡◌, ◌<◌, ◌⊎◌, inl, inr, ◌≤◌, refl, true, [], ◌∷◌, none, some, arith, ltb, ◌==◌,
  if◌then◌else◌,
}
use klee.Acpi.{Memory, DetectCoreResult, detect_cores, wait_microseconds, word32}
use klee.Acpi.Cores.{IsEntry, first, after, detect_cores_returns}
use klee.Acpi.Timer.{AllBelow, wait_microseconds_never}

abbrev madt : Memory
madt i =
    if i == 4
    then 60
    else if i == 38
    then 224
    else if i == 39
    then 254
    else if i == 45
    then 8
    else if i == 48
    then 1
    else if i == 53
    then 8
    else if i == 55
    then 1
    else if ltb i 60
    then 0
    else 1

detect_cores-madt :
    detect_cores 3 madt 0
    ≡ some (record { lapic_ids = 0 ∷ []; lapic_address = 4276092928; ioapic_address = 0 })
unfolding detect_cores
detect_cores-madt = refl

-- The entries are at 44 and 52.
entries-madt : (q : ℕ) → IsEntry madt 44 60 q → (q ≡ 44) ⊎ (q ≡ 52) ⊎ (60 ≤ q)
entries-madt q first = inl refl
entries-madt q (after p e inside) = elim (entries-madt p e) [
  | inl at ↦ inr (inl (rw at refl))
  | inr (inl at) ↦ inr (inr (rw at (omega arith)))
  | inr (inr past) ↦ absurd (omega (arith, inside, past))
]

lengths-madt : (q : ℕ) → IsEntry madt 44 60 q → q < 60 → 0 < madt (q + 1)
lengths-madt q e inside = elim (entries-madt q e) [
  | inl at ↦ rw at (omega arith)
  | inr (inl at) ↦ rw at (omega arith)
  | inr (inr past) ↦ absurd (omega (arith, inside, past))
]

detect_cores_returns_example :
    (r : DetectCoreResult) × (detect_cores (suc (word32 madt (0 + 4))) madt 0 ≡ some r)
detect_cores_returns_example = detect_cores_returns madt 0 lengths-madt

AllBelow-readings : AllBelow (2 ^ 32) (4294967200 ∷ 5 ∷ 20 ∷ [])
unfolding AllBelow
AllBelow-readings = (omega arith, (omega arith, (omega arith, tt)))

wait_microseconds_never_example :
    wait_microseconds true 4294967000 (4294967200 ∷ 5 ∷ 20 ∷ []) 1000 ≡ none
wait_microseconds_never_example =
    wait_microseconds_never 4294967000 1000 (4294967200 ∷ 5 ∷ 20 ∷ []) (omega arith) (omega arith)
      (omega arith) (omega arith) AllBelow-readings
