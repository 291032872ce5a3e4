-- ===== src/Paging/Level.antt =====
-- src/paging.hpp: one level of the processor's walk, and what opening a table changes in it.
use klee.Base.{
  ℕ, ◌+◌, ◌*◌, ◌/◌, ◌%◌, ◌^◌, ◌<◌, ◌≡◌, refl, Bool, true, false, ◌&&◌, Option, none, some, get_or,
  arith, ◌==◌, ==_refl, if◌then◌else◌,
}
use klee.Paging.{Table, entry_of}

-- What the processor gets for an address.
pub record Access : Type 0 where
  pub page : ℕ
  pub user : Bool
  pub write : Bool

abbrev pub is_present : ℕ → Bool
is_present entry = entry % 2 == 1

abbrev pub is_writable : ℕ → Bool
is_writable entry = entry / 2 % 2 == 1

abbrev pub is_user : ℕ → Bool
is_user entry = entry / 4 % 2 == 1

-- `bits.addr`, as an address
abbrev pub address_of : ℕ → ℕ
address_of entry = entry / 4096 * 4096 % 2 ^ 52

-- An access must be allowed on all levels.
abbrev pub through : ℕ → Option Access → Option Access
through entry none = none
through entry (some a) =
    some (record a { user = is_user entry && a.user; write = is_writable entry && a.write })

-- The table that an entry points to is the one below it, if it stands at that address.
abbrev pub follow : {R : Type 0} → (R → ℕ) → (R → Option Access) → ℕ → Option R → Option Access
follow at walk entry none = none
follow at walk entry (some r) = if address_of entry == at r then through entry (walk r) else none

abbrev pub step : {R : Type 0} → (R → ℕ) → (R → Option Access) → Table R → ℕ → Option Access
step at walk t i =
    let entry = get_or t.data' i 0 in
    if is_present entry then follow at walk entry (get_or t.resource i none) else none

module _ {R : Type 0} (at : R → ℕ) where
  -- An entry is present exactly when there is a table below, and is then its address.
  pub data IsEntry (t : Table R) (i : ℕ) : Type 0 where
    absent : get_or t.resource i none ≡ none → is_present (get_or t.data' i 0) ≡ false → IsEntry t i
    owned :
        (r : R)
        → get_or t.resource i none ≡ some r
        → get_or t.data' i 0 ≡ entry_of (at r)
        → (a : ℕ) → at r ≡ a * 4096
        → at r < 2 ^ 52
        → IsEntry t i

  entry_address : (x a : ℕ) → x ≡ a * 4096 → x < 2 ^ 52 → (x / 8 * 8 + 7) / 4096 * 4096 % 2 ^ 52 ≡ x
  entry_address x a e h = omega arith

  entry_present : (x : ℕ) → ((x / 8 * 8 + 7) % 2 == 1) ≡ true
  entry_present x = ground arith

  entry_writable : (x : ℕ) → ((x / 8 * 8 + 7) / 2 % 2 == 1) ≡ true
  entry_writable x = ground arith

  entry_user : (x : ℕ) → ((x / 8 * 8 + 7) / 4 % 2 == 1) ≡ true
  entry_user x = ground arith

  through_entry : (x : ℕ) (o : Option Access) → through (entry_of x) o ≡ o
  through_entry x none = refl
  through_entry x (some a) = rw (entry_user x, entry_writable x) refl

  -- The walk goes on in the table below.
  pub step-entry :
      (walk : R → Option Access) (t : Table R) (i : ℕ) (r : R) (a : ℕ)
      → get_or t.resource i none ≡ some r
      → get_or t.data' i 0 ≡ entry_of (at r)
      → at r ≡ a * 4096
      → at r < 2 ^ 52
      → step at walk t i ≡ walk r
  step-entry walk t i r a o e m h =
      rw (o, e, entry_present (at r), entry_address (at r) a m h, ==_refl (at r))
        (through_entry (at r) (walk r))

  pub step_absent :
      (walk : R → Option Access) (t : Table R) (i : ℕ)
      → is_present (get_or t.data' i 0) ≡ false
      → step at walk t i ≡ none
  step_absent walk t i h = rw h refl
