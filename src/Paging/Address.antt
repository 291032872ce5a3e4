-- ===== src/Paging/Address.antt =====
-- src/paging.hpp: the indices of an address.

use klee.Base.{ℕ, ◌+◌, ◌*◌, ◌/◌, ◌%◌, ◌^◌, ◌<◌, ◌≡◌, ◌≢◌, arith, ℕ_discrete}
use klee.Paging.{Indices, split_addr_for_page_table}

-- The page of an address from its indices.
abbrev pub page_of : Indices → ℕ
page_of i = i.pti + 512 * (i.pdi + 512 * (i.pdpti + 512 * i.pml4i))

pub record AreInside (i : Indices) : Type 0 where
  pub pti_inside : i.pti < 512
  pub pdi_inside : i.pdi < 512
  pub pdpti_inside : i.pdpti < 512
  pub pml4i_inside : i.pml4i < 512

pub split_addr_for_page_table-AreInside : (v : ℕ) → AreInside (split_addr_for_page_table v)
unfolding split_addr_for_page_table
split_addr_for_page_table-AreInside v = record {
  pti_inside = omega arith;
  pdi_inside = omega arith;
  pdpti_inside = omega arith;
  pml4i_inside = omega arith;
}

from_page :
    (x : ℕ)
    → x < 2 ^ 36
    → x % 512
        + 512 * (x / 512 % 512 + 512 * (x / 512 / 512 % 512 + 512 * (x / 512 / 512 / 512 % 512)))
      ≡ x
from_page x h = omega arith

-- The indices of an address of 48 bits are the digits of its page number.
pub page_of-split_addr_for_page_table :
    (v : ℕ) → v < 2 ^ 48 → page_of (split_addr_for_page_table v) ≡ v / 4096
unfolding split_addr_for_page_table
page_of-split_addr_for_page_table v h = from_page (v / 4096) (omega arith)

-- Indices that differ, from the top down.
pub data Differ (i j : Indices) : Type 0 where
  by_pml4i : i.pml4i ≢ j.pml4i → Differ i j
  by_pdpti : i.pml4i ≡ j.pml4i → i.pdpti ≢ j.pdpti → Differ i j
  by_pdi : i.pml4i ≡ j.pml4i → i.pdpti ≡ j.pdpti → i.pdi ≢ j.pdi → Differ i j
  by_pti : i.pml4i ≡ j.pml4i → i.pdpti ≡ j.pdpti → i.pdi ≡ j.pdi → i.pti ≢ j.pti → Differ i j

pub page_of-Differ : (i j : Indices) → page_of i ≢ page_of j → Differ i j
page_of-Differ i j n = elim (ℕ_discrete i.pml4i j.pml4i) [
  | no a ↦ by_pml4i a
  | yes a ↦ elim (ℕ_discrete i.pdpti j.pdpti) [
    | no b ↦ by_pdpti a b
    | yes b ↦ elim (ℕ_discrete i.pdi j.pdi) [
      | no c ↦ by_pdi a b c
      | yes c ↦ by_pti a b c (λ d. n (omega (arith, a, b, c, d)))
    ]
  ]
]
