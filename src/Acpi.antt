-- ===== src/Acpi.antt =====
-- src/acpi.hpp: the firmware's tables and the timer. Memory is the byte at each address; what the timer
-- reads is the list of its readings, in order.
mod Tests
pub mod Cores
pub mod Timer
use klee.Base.{
  ℕ, zero, suc, ◌+◌, ◌-◌, ◌*◌, ◌/◌, ◌%◌, ◌^◌, Bool, true, false, not, ◌&&◌, List, [], ◌∷◌, ◌++◌,
  Option, none, some, ltb, leb, ◌==◌, if◌then◌else◌,
}

abbrev pub Memory : Type 0
Memory = ℕ → ℕ

abbrev pub word32 : Memory → ℕ → ℕ
word32 m p = m p + 256 * m (p + 1) + 65536 * m (p + 2) + 16777216 * m (p + 3)

abbrev pub word64 : Memory → ℕ → ℕ
word64 m p = word32 m p + 4294967296 * word32 m (p + 4)

-- The sum so far, then the bytes that are left.
abbrev pub sum_from : Memory → ℕ → ℕ → ℕ → ℕ
sum_from m r p zero = r
sum_from m r p (suc bytes) = sum_from m ((r + m p) % 256) (p + 1) bytes

unfoldable pub sum_bytes : Memory → ℕ → ℕ → ℕ
sum_bytes m p bytes = sum_from m 0 p bytes

abbrev pub has_signature : Memory → ℕ → List ℕ → Bool
has_signature m p [] = true
has_signature m p (c ∷ cs) = (m p == c) && has_signature m (p + 1) cs

-- `RSD PTR `, `XSDT`, `FACP` and `APIC`
abbrev pub rsd_ptr : List ℕ
rsd_ptr = 82 ∷ 83 ∷ 68 ∷ 32 ∷ 80 ∷ 84 ∷ 82 ∷ 32 ∷ []

abbrev pub xsdt_signature : List ℕ
xsdt_signature = 88 ∷ 83 ∷ 68 ∷ 84 ∷ []

abbrev pub facp : List ℕ
facp = 70 ∷ 65 ∷ 67 ∷ 80 ∷ []

abbrev pub apic : List ℕ
apic = 65 ∷ 80 ∷ 73 ∷ 67 ∷ []

-- RSDP::is_valid
unfoldable pub rsdp_is_valid : Memory → ℕ → Bool
rsdp_is_valid m p =
    if not (has_signature m p rsd_ptr)
    then false
    else if not (m (p + 15) == 2)
    then false
    else if not (sum_bytes m p 20 == 0)
    then false
    else if not (sum_bytes m p 36 == 0)
    then false
    else true

-- DescriptionHeader::is_valid
unfoldable pub header_is_valid : Memory → ℕ → List ℕ → Bool
header_is_valid m p expected =
    if not (has_signature m p expected)
    then false
    else if not (sum_bytes m p (word32 m (p + 4)) == 0)
    then false
    else true

-- XSDT::get_count
abbrev pub get_count : Memory → ℕ → ℕ
get_count m xsdt = (word32 m (xsdt + 4) + (2 ^ 64 - 36)) % 2 ^ 64 / 8

pub record Tables : Type 0 where
  pub fadt : Option ℕ
  pub madt : Option ℕ

abbrev pub take_table : Memory → Tables → ℕ → Tables
take_table m t e =
    if header_is_valid m e facp
    then record t { fadt = some e }
    else if header_is_valid m e apic
    then record t { madt = some e }
    else t

-- The loop over the entries of the XSDT, from the one at `p` on.
abbrev pub take_tables : Memory → Tables → ℕ → ℕ → Tables
take_tables m t p zero = t
take_tables m t p (suc count) = take_tables m (take_table m t (word64 m p)) (p + 8) count

abbrev pub both : Tables → Bool
both t = elim t.fadt [ none ↦ false | some f ↦ elim t.madt [ none ↦ false | some a ↦ true ] ]

unfoldable pub initialize_acpi : Memory → Tables → ℕ → Bool × Tables
initialize_acpi m t rsdp =
    let xsdt = word64 m (rsdp + 24) in
    let found = take_tables m t (xsdt + 36) (get_count m xsdt) in
    if not (rsdp_is_valid m rsdp)
    then (false, t)
    else if not (header_is_valid m xsdt xsdt_signature)
    then (false, t)
    else (both found, found)

-- DetectCoreResult
pub record DetectCoreResult : Type 0 where
  pub lapic_ids : List ℕ
  pub lapic_address : ℕ
  pub ioapic_address : ℕ

-- The switch over the entry at `p`: a processor, an interrupt controller, or an address.
abbrev pub take_entry : Memory → ℕ → DetectCoreResult → DetectCoreResult
take_entry m p r =
    let type = m p in
    if type == 0
    then (if m (p + 4) % 2 == 1 then record r { lapic_ids = r.lapic_ids ++ m (p + 3) ∷ [] } else r)
    else if type == 1
    then record r { ioapic_address = word32 m (p + 4) }
    else if type == 5
    then record r { ioapic_address = word64 m (p + 4) }
    else r

-- The loop from the entry at `p` on. Nothing when the fuel does not suffice.
abbrev pub detect_from : ℕ → Memory → ℕ → ℕ → DetectCoreResult → Option DetectCoreResult
detect_from zero m p stop r = none
detect_from (suc fuel) m p stop r =
    let rest = detect_from fuel m (p + m (p + 1)) stop (take_entry m p r) in
    if ltb p stop then rest else some r

unfoldable pub detect_cores : ℕ → Memory → ℕ → Option DetectCoreResult
detect_cores fuel m madt =
    detect_from fuel m (madt + 44) (madt + word32 m (madt + 4))
      (record { lapic_ids = []; lapic_address = word32 m (madt + 36); ioapic_address = 0 })

abbrev pub pm_timer_freq : ℕ
pm_timer_freq = 3579545

-- Readings up to the first that is below `start`, which ends the first loop, and up to the first that is
-- not below `stop`, which ends the second. Nothing when the readings end first: the loop still runs.
abbrev pub wait_below : ℕ → List ℕ → Option (List ℕ)
wait_below start [] = none
wait_below start (t ∷ ts) = let rest = wait_below start ts in if leb start t then rest else some ts

abbrev pub wait_above : ℕ → List ℕ → Option (List ℕ)
wait_above stop [] = none
wait_above stop (t ∷ ts) = let rest = wait_above stop ts in if ltb t stop then rest else some ts

abbrev pub then_above : ℕ → Option (List ℕ) → Option (List ℕ)
then_above stop none = none
then_above stop (some ts) = wait_above stop ts

-- When the wait is over, as 64 bits.
abbrev pub end_of : Bool → ℕ → ℕ → ℕ
end_of pm_timer_32 start us =
    let stop = (start + pm_timer_freq * us % 2 ^ 64 / 1000000) % 2 ^ 64 in
    if pm_timer_32 then stop else stop % 2 ^ 24

-- `readings` follow the first one, `start`.
unfoldable pub wait_microseconds : Bool → ℕ → List ℕ → ℕ → Option (List ℕ)
wait_microseconds pm_timer_32 start readings us =
    let stop = end_of pm_timer_32 start us in
    if ltb stop start then then_above stop (wait_below start readings) else wait_above stop readings
