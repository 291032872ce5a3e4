-- ===== src/Paging/Mapping.antt =====
-- src/paging.hpp: map_virtual_to_physical, against the processor's walk.
use klee.Base.{
  ℕ, ◌+◌, ◌*◌, ◌/◌, ◌%◌, ◌^◌, ◌<◌, ◌≡◌, sym, ap, ◌∙◌, Bool, true, false, Option, none, some,
  is_some, length, get_or, length-replicate, get_or-replicate, arith, ◌==◌, if◌then◌else◌,
}
use klee.Paging.{
  PageTable, PageDirectory, PageDirectoryPointerTable, PageMapLevel4Table, new_table, Indices,
  split_addr_for_page_table, bit_of,
}
use klee.Paging.Level.{
  Access, is_present, is_user, is_writable, address_of, step, absent, step_absent,
}
use klee.Paging.Opened.{IsLevel}

-- The last level of the walk.
abbrev pub leaf : Indices → PageTable → Option Access
leaf i pt =
    let e = get_or pt.data' i.pti 0 in
    if is_present e
    then some (record { page = address_of e; user = is_user e; write = is_writable e })
    else none

abbrev pub walk_pd : Indices → PageDirectory → Option Access
walk_pd i pd = step (λ pt. pt.address) (leaf i) pd i.pdi

abbrev pub walk_pdpt : Indices → PageDirectoryPointerTable → Option Access
walk_pdpt i pdpt = step (λ pd. pd.address) (walk_pd i) pdpt i.pdpti

abbrev pub walk_pml4 : Indices → PageMapLevel4Table → Option Access
walk_pml4 i pml4 = step (λ pdpt. pdpt.address) (walk_pdpt i) pml4 i.pml4i

-- The processor's translation of an address.
abbrev pub translate : PageMapLevel4Table → ℕ → Option Access
translate pml4 v = walk_pml4 (split_addr_for_page_table v) pml4

abbrev pub Any : ℕ → Type 0
Any i = Unit

unfoldable pub IsPageTable : PageTable → Type 0
IsPageTable pt = length pt.data' ≡ 512

abbrev pub IsPageDirectory : PageDirectory → Type 0
IsPageDirectory = IsLevel (λ pt. pt.address) IsPageTable Any

abbrev pub IsPointerTable : PageDirectoryPointerTable → Type 0
IsPointerTable = IsLevel (λ pd. pd.address) IsPageDirectory Any

-- `own` says which entries of the top level the kernel made by operator[]. The one that the kernel
-- shares with all processes is not among them.
abbrev pub IsTop : (ℕ → Type 0) → PageMapLevel4Table → Type 0
IsTop = IsLevel (λ pdpt. pdpt.address) IsPointerTable

pub new_table-IsLevel :
    {R : Type 0} (at : R → ℕ) (P : R → Type 0) (a : ℕ) → IsLevel at P Any (new_table a)
new_table-IsLevel {R = R} at P a = record {
  entries = length-replicate {A = ℕ} 512 0;
  resources = length-replicate {A = Option R} 512 none;
  entry = λ i o.
      absent (get_or-replicate {A = Option R} 512 i none)
        (ap is_present (get_or-replicate {A = ℕ} 512 i 0));
  below = λ i r e. absurd (none_some (sym (get_or-replicate {A = Option R} 512 i none) ∙ e));
}
  where
    none_some : {r : R} → none ≡ some r → ⊥
    none_some e = omega (arith, ap (λ o. bit_of (is_some o)) e)

pub step-new_table :
    {R : Type 0} (at : R → ℕ) (walk : R → Option Access) (a i : ℕ)
    → step at walk (new_table a) i ≡ none
step-new_table at walk a i =
    step_absent at walk (new_table a) i (ap is_present (get_or-replicate {A = ℕ} 512 i 0))

pub page_present :
    (p : ℕ) (u w : Bool) → ((p / 8 * 8 + bit_of u * 4 + bit_of w * 2 + 1) % 2 == 1) ≡ true
page_present p true true = ground arith
page_present p true false = ground arith
page_present p false true = ground arith
page_present p false false = ground arith

pub page_user :
    (p : ℕ) (u w : Bool) → ((p / 8 * 8 + bit_of u * 4 + bit_of w * 2 + 1) / 4 % 2 == 1) ≡ u
page_user p true true = ground arith
page_user p true false = ground arith
page_user p false true = ground arith
page_user p false false = ground arith

pub page_write :
    (p : ℕ) (u w : Bool) → ((p / 8 * 8 + bit_of u * 4 + bit_of w * 2 + 1) / 2 % 2 == 1) ≡ w
page_write p true true = ground arith
page_write p true false = ground arith
page_write p false true = ground arith
page_write p false false = ground arith

pub page_address :
    (p f : ℕ) (u w : Bool)
    → p ≡ f * 4096
    → p < 2 ^ 52
    → (p / 8 * 8 + bit_of u * 4 + bit_of w * 2 + 1) / 4096 * 4096 % 2 ^ 52 ≡ p
page_address p f true true e h = omega arith
page_address p f true false e h = omega arith
page_address p f false true e h = omega arith
page_address p f false false e h = omega arith
