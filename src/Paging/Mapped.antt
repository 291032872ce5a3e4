-- ===== src/Paging/Mapped.antt =====
-- src/paging.hpp: what map_virtual_to_physical changes in the processor's translation.
use klee.Base.{ℕ, ◌*◌, ◌/◌, ◌%◌, ◌^◌, ◌<◌, ◌≡◌, ◌≢◌, refl, sym, ap, ◌∙◌, some}
use klee.Paging.{
  PageMapLevel4Table, Attribute, split_addr_for_page_table, NewTables, map_virtual_to_physical,
}
use klee.Paging.Address.{
  split_addr_for_page_table-AreInside, page_of-Differ, page_of-split_addr_for_page_table,
}
use klee.Paging.Mapping.{walk_pml4, translate, IsTop}
use klee.Paging.Written.{ArePlaced, write_pml4, pml4_here, pml4_elsewhere, pml4_kept}

-- What a mapping changes: the page `v` and no other, and the tables stay in order.
pub record IsMapped (own : ℕ → Type 0) (pml4 pml4' : PageMapLevel4Table) (v p : ℕ)
    (attr : Attribute) : Type 0 where
  pub here :
      (a : ℕ)
      → a / 4096 ≡ v / 4096
      → translate pml4' a ≡ some (record { page = p; user = attr.user; write = attr.write })
  pub elsewhere : (a : ℕ) → a < 2 ^ 48 → a / 4096 ≢ v / 4096 → translate pml4' a ≡ translate pml4 a
  pub in_order : IsTop own pml4'

split_addr_of_page :
    (a v : ℕ) → a / 4096 ≡ v / 4096 → split_addr_for_page_table a ≡ split_addr_for_page_table v
unfolding split_addr_for_page_table
split_addr_of_page a v e =
    ap
      (λ x. record {
        pti = x % 512;
        pdi = x / 512 % 512;
        pdpti = x / 512 / 512 % 512;
        pml4i = x / 512 / 512 / 512 % 512;
      })
      e

-- After map_virtual_to_physical the processor translates every address of the page to the physical
-- page, for user and write accesses as asked for, whatever is asked for execution, and every other
-- address of 48 bits as before, tables that had to be made included, and the tables are in order for
-- the next call. The virtual address has 48 bits. The physical address is that of a
-- page below 2 ^ 52, new tables stand at the start of frames below 2 ^ 52, and the top entry is one that
-- the kernel made or that is absent.
pub map_virtual_to_physical-IsMapped :
    (own : ℕ → Type 0) (pml4 : PageMapLevel4Table) (v f : ℕ) (attr : Attribute) (new : NewTables)
    → IsTop own pml4
    → own (split_addr_for_page_table v).pml4i
    → ArePlaced new
    → v < 2 ^ 48
    → f * 4096 < 2 ^ 52
    → IsMapped own pml4 (map_virtual_to_physical pml4 v (f * 4096) attr new) v (f * 4096) attr
unfolding map_virtual_to_physical
map_virtual_to_physical-IsMapped own pml4 v f attr new t o w vh fh =
    let i = split_addr_for_page_table v in
    let b = split_addr_for_page_table-AreInside v in
    record {
      here = λ a e.
          ap (λ j. walk_pml4 j (write_pml4 i b (f * 4096) f attr new refl fh w own pml4 t o))
            (split_addr_of_page a v e)
          ∙ pml4_here i b (f * 4096) f attr new refl fh w own pml4 t o;
      elsewhere = λ a ah n.
          pml4_elsewhere i b (f * 4096) f attr new refl fh w own pml4 t o
            (split_addr_for_page_table a)
            (page_of-Differ i (split_addr_for_page_table a) (λ e. n (
              sym (page_of-split_addr_for_page_table a ah)
              ∙ sym e
              ∙ page_of-split_addr_for_page_table v vh)));
      in_order = pml4_kept i b (f * 4096) f attr new refl fh w own pml4 t o;
    }
