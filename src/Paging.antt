-- ===== src/Paging.antt =====
-- src/paging.hpp: the page tables of a process, and what the processor makes of them. A table has an
-- address, the entries that the processor reads, and the tables below it that the kernel owns. The
-- addresses of new tables are arguments.
mod Tests
pub mod Level
pub mod Opened
pub mod Address
pub mod Mapping
pub mod Written
pub mod Mapped
use klee.Base.{
  ℕ, zero, suc, ◌+◌, ◌-◌, ◌*◌, ◌/◌, ◌%◌, ◌^◌, Bool, true, false, ◌&&◌, List, [], ◌∷◌, Option, none,
  some, get_or, set, replicate, ◌==◌, if◌then◌else◌,
}

-- PageTable
pub record PageTable : Type 0 where
  pub address : ℕ
  pub data' : List ℕ

-- PageDirectory, PageDirectoryPointerTable and PageMapLevel4Table, over the table `R` below
pub record Table (R : Type 0) : Type 0 where
  pub address : ℕ
  pub data' : List ℕ
  pub resource : List (Option R)

abbrev pub PageDirectory : Type 0
PageDirectory = Table PageTable

abbrev pub PageDirectoryPointerTable : Type 0
PageDirectoryPointerTable = Table PageDirectory

abbrev pub PageMapLevel4Table : Type 0
PageMapLevel4Table = Table PageDirectoryPointerTable

abbrev pub new_page_table : ℕ → PageTable
new_page_table address = record { address = address; data' = replicate 512 0 }

abbrev pub new_table : {R : Type 0} → ℕ → Table R
new_table address = record {
  address = address;
  data' = replicate 512 0;
  resource = replicate 512 none;
}

-- An entry with `present`, `write` and `user` set, over what else the address holds in these bits.
abbrev pub entry_of : ℕ → ℕ
entry_of address = address / 8 * 8 + 7

abbrev pub open_with : {R : Type 0} → Table R → ℕ → R → ℕ → Option R → R × Table R
open_with t index new address (some r) = (r, t)
open_with t index new address none = (
  new,
  record t {
    data' = set t.data' index (entry_of address);
    resource = set t.resource index (some new);
  },
)

-- operator[]: the table below, made if there is none, and this table.
unfoldable pub open_at : {R : Type 0} → Table R → ℕ → R → ℕ → R × Table R
open_at t index new address = open_with t index new address (get_or t.resource index none)

-- What the caller writes to the table below.
abbrev pub put_back : {R : Type 0} → Table R → ℕ → R → Table R
put_back t index r = record t { resource = set t.resource index (some r) }

-- Attribute, by its bits
pub record Attribute : Type 0 where
  pub user : Bool
  pub write : Bool
  pub execute : Bool

pub record Indices : Type 0 where
  pub pti : ℕ
  pub pdi : ℕ
  pub pdpti : ℕ
  pub pml4i : ℕ

unfoldable pub split_addr_for_page_table : ℕ → Indices
split_addr_for_page_table addr = record {
  pti = addr / 4096 % 512;
  pdi = addr / 4096 / 512 % 512;
  pdpti = addr / 4096 / 512 / 512 % 512;
  pml4i = addr / 4096 / 512 / 512 / 512 % 512;
}

abbrev pub bit_of : Bool → ℕ
bit_of true = 1
bit_of false = 0

-- The address with `present`, `user` and `write` set as asked. `execute` is not looked at.
abbrev pub page_entry : ℕ → Attribute → ℕ
page_entry physical_addr attr =
    physical_addr / 8 * 8 + bit_of attr.user * 4 + bit_of attr.write * 2 + 1

abbrev pub set_entry : PageTable → ℕ → ℕ → Attribute → PageTable
set_entry pt index physical_addr attr = record pt {
  data' = set pt.data' index (page_entry physical_addr attr);
}

-- The addresses of the tables that may have to be made.
pub record NewTables : Type 0 where
  pub pt : ℕ
  pub pd : ℕ
  pub pdpt : ℕ

unfoldable pub map_virtual_to_physical :
    PageMapLevel4Table → ℕ → ℕ → Attribute → NewTables → PageMapLevel4Table
map_virtual_to_physical pml4 virtual_addr physical_addr attr new =
    let i = split_addr_for_page_table virtual_addr in
    let (pdpt, pml4') = open_at pml4 i.pml4i (new_table new.pdpt) new.pdpt in
    let (pd, pdpt') = open_at pdpt i.pdpti (new_table new.pd) new.pd in
    let (pt, pd') = open_at pd i.pdi (new_page_table new.pt) new.pt in
    put_back pml4' i.pml4i
      (put_back pdpt' i.pdpti (put_back pd' i.pdi (set_entry pt i.pti physical_addr attr)))
