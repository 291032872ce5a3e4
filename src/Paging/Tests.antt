-- ===== src/Paging/Tests.antt =====
-- Runs of src/paging.hpp: a page in empty tables.
use klee.Base.{◌*◌, refl, true, false, arith}
use klee.Paging.{PageMapLevel4Table, new_table, Attribute, NewTables, map_virtual_to_physical}
use klee.Paging.Mapping.{IsTop, IsPointerTable, new_table-IsLevel, Any}
use klee.Paging.Written.{ArePlaced}
use klee.Paging.Mapped.{IsMapped, map_virtual_to_physical-IsMapped}

abbrev empty : PageMapLevel4Table
empty = new_table 4096

abbrev tables : NewTables
tables = record { pt = 8192; pd = 12288; pdpt = 16384 }

abbrev readable : Attribute
readable = record { user = true; write = false; execute = false }

IsTop-empty : IsTop Any empty
IsTop-empty = new_table-IsLevel (λ pdpt. pdpt.address) IsPointerTable 4096

ArePlaced-tables : ArePlaced tables
ArePlaced-tables = record {
  pt_placed = record { frame = 2; aligned = refl; small = omega arith };
  pd_placed = record { frame = 3; aligned = refl; small = omega arith };
  pdpt_placed = record { frame = 4; aligned = refl; small = omega arith };
}

map_virtual_to_physical-IsMapped_example :
    IsMapped Any empty
      (map_virtual_to_physical empty 4194304 (7 * 4096) readable tables)
      4194304
      (7 * 4096)
      readable
map_virtual_to_physical-IsMapped_example =
    map_virtual_to_physical-IsMapped Any empty 4194304 7 readable tables IsTop-empty tt
      ArePlaced-tables (omega arith) (omega arith)
