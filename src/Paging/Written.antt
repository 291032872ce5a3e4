-- ===== src/Paging/Written.antt =====
-- src/paging.hpp: the levels of the tables after map_virtual_to_physical.
use klee.Base.{
  ℕ, ◌*◌, ◌^◌, ◌<◌, ◌≡◌, ◌≢◌, refl, sym, ap, ◌∙◌, subst, none, some, get_or, length-set,
  length-replicate, get_or-replicate, get_or-set_self, get_or-set_ne, arith, Option-cases, inl, inr,
}
use klee.Paging.{
  PageTable, Table, PageDirectory, PageDirectoryPointerTable, PageMapLevel4Table, new_page_table,
  new_table, open_at, open_with, put_back, Attribute, Indices, page_entry, set_entry, NewTables,
}
use klee.Paging.Level.{Access, step}
use klee.Paging.Opened.{IsPlaced, IsOpened, open_at-IsOpened}
use klee.Paging.Address.{Differ, by_pml4i, by_pdpti, by_pdi, by_pti, AreInside}
use klee.Paging.Mapping.{
  leaf, walk_pd, walk_pdpt, walk_pml4, Any, IsPageTable, IsPageDirectory, IsPointerTable, IsTop,
  new_table-IsLevel, step-new_table, page_present, page_user, page_write, page_address,
}

pub record ArePlaced (new : NewTables) : Type 0 where
  pub pt_placed : IsPlaced (λ pt. pt.address) (new_page_table new.pt)
  pub pd_placed : IsPlaced {R = PageDirectory} (λ pd. pd.address) (new_table new.pd)
  pub pdpt_placed :
      IsPlaced {R = PageDirectoryPointerTable} (λ pdpt. pdpt.address) (new_table new.pdpt)

open_at-address :
    {R : Type 0} (t : Table R) (i : ℕ) (new : R) (a : ℕ) → (open_at t i new a).1.address ≡ t.address
unfolding open_at
open_at-address t i new a = elim (Option-cases (get_or t.resource i none)) [
  | inl e ↦ ap (λ o. (open_with t i new a o).1.address) e
  | inr (r, e) ↦ ap (λ o. (open_with t i new a o).1.address) e
]

module _ (i : Indices) (b : AreInside i) (p f : ℕ) (attr : Attribute) (new : NewTables)
    (aligned : p ≡ f * 4096) (small : p < 2 ^ 52) (w : ArePlaced new) where
  -- What an access to the page gets.
  abbrev pub access : Access
  access = record { page = p; user = attr.user; write = attr.write }

  abbrev write_pt : PageTable → PageTable
  write_pt pt = set_entry pt i.pti p attr

  pt_here : (pt : PageTable) → IsPageTable pt → leaf i (write_pt pt) ≡ some access
  unfolding IsPageTable
  pt_here pt v =
      rw
        (
          get_or-set_self pt.data' i.pti (page_entry p attr) 0 (omega (arith, v, b.pti_inside)),
          page_present p attr.user attr.write,
          page_address p f attr.user attr.write aligned small,
          page_user p attr.user attr.write,
          page_write p attr.user attr.write,
        )
        refl

  pt_other : (pt : PageTable) (j : Indices) → i.pti ≢ j.pti → leaf j (write_pt pt) ≡ leaf j pt
  pt_other pt j n = rw (get_or-set_ne pt.data' i.pti j.pti (page_entry p attr) 0 n) refl

  pt_kept : (pt : PageTable) → IsPageTable pt → IsPageTable (write_pt pt)
  unfolding IsPageTable
  pt_kept pt v = length-set pt.data' i.pti (page_entry p attr) ∙ v

  new_pt : IsPageTable (new_page_table new.pt)
  unfolding IsPageTable
  new_pt = length-replicate {A = ℕ} 512 0

  leaf-new : (j : Indices) → leaf j (new_page_table new.pt) ≡ none
  leaf-new j = rw (get_or-replicate {A = ℕ} 512 j.pti 0) refl

  module _ (pd : PageDirectory) (v : IsPageDirectory pd) where
    abbrev pd_opened : PageTable × PageDirectory
    pd_opened = open_at pd i.pdi (new_page_table new.pt) new.pt

    abbrev write_pd : PageDirectory
    write_pd = put_back pd_opened.1 i.pdi (write_pt pd_opened.0)

    pd_IsOpened :
        IsOpened (λ pt. pt.address) IsPageTable Any pd i.pdi (new_page_table new.pt) pd_opened
    pd_IsOpened =
        open_at-IsOpened (λ pt. pt.address) IsPageTable Any pd v i.pdi b.pdi_inside
          (new_page_table new.pt) w.pt_placed new_pt tt

    pd_here : walk_pd i write_pd ≡ some access
    pd_here =
        pd_IsOpened.same (leaf i) (write_pt pd_opened.0) refl
        ∙ pt_here pd_opened.0 pd_IsOpened.child

    pd_elsewhere : (j : Indices) → i.pdi ≢ j.pdi → walk_pd j write_pd ≡ walk_pd j pd
    pd_elsewhere j n = pd_IsOpened.other (leaf j) (write_pt pd_opened.0) j.pdi n

    pd_below : (j : Indices) → i.pdi ≡ j.pdi → i.pti ≢ j.pti → walk_pd j write_pd ≡ walk_pd j pd
    pd_below j e n =
        subst
          (λ k. step (λ pt. pt.address) (leaf j) write_pd k ≡ step (λ pt. pt.address) (leaf j) pd k)
          e
          (pd_IsOpened.same (leaf j) (write_pt pd_opened.0) refl
            ∙ pt_other pd_opened.0 j n
            ∙ sym (pd_IsOpened.before (leaf j) (leaf-new j)))

    pd_kept : IsPageDirectory write_pd
    pd_kept = pd_IsOpened.kept (write_pt pd_opened.0) refl (pt_kept pd_opened.0 pd_IsOpened.child)

    pd_address : write_pd.address ≡ pd.address
    pd_address = open_at-address pd i.pdi (new_page_table new.pt) new.pt

  walk_pd-new : (j : Indices) → walk_pd j (new_table new.pd) ≡ none
  walk_pd-new j = step-new_table (λ pt. pt.address) (leaf j) new.pd j.pdi

  module _ (pdpt : PageDirectoryPointerTable) (v : IsPointerTable pdpt) where
    abbrev pdpt_opened : PageDirectory × PageDirectoryPointerTable
    pdpt_opened = open_at pdpt i.pdpti (new_table new.pd) new.pd

    pdpt_IsOpened :
        IsOpened (λ pd. pd.address) IsPageDirectory Any pdpt i.pdpti (new_table new.pd) pdpt_opened
    pdpt_IsOpened =
        open_at-IsOpened (λ pd. pd.address) IsPageDirectory Any pdpt v i.pdpti b.pdpti_inside
          (new_table new.pd) w.pd_placed (new_table-IsLevel (λ pt. pt.address) IsPageTable new.pd)
          tt

    abbrev pd_of : PageDirectory
    pd_of = pdpt_opened.0

    pub is_pd : IsPageDirectory pd_of
    is_pd = pdpt_IsOpened.child

    abbrev write_pdpt : PageDirectoryPointerTable
    write_pdpt = put_back pdpt_opened.1 i.pdpti (write_pd pd_of is_pd)

    pdpt_here : walk_pdpt i write_pdpt ≡ some access
    pdpt_here =
        pdpt_IsOpened.same (walk_pd i) (write_pd pd_of is_pd) (pd_address pd_of is_pd)
        ∙ pd_here pd_of is_pd

    pdpt_elsewhere : (j : Indices) → i.pdpti ≢ j.pdpti → walk_pdpt j write_pdpt ≡ walk_pdpt j pdpt
    pdpt_elsewhere j n = pdpt_IsOpened.other (walk_pd j) (write_pd pd_of is_pd) j.pdpti n

    pdpt_below :
        (j : Indices)
        → i.pdpti ≡ j.pdpti
        → walk_pd j (write_pd pd_of is_pd) ≡ walk_pd j pd_of
        → walk_pdpt j write_pdpt ≡ walk_pdpt j pdpt
    pdpt_below j e q =
        subst
          (λ k.
            step (λ pd. pd.address) (walk_pd j) write_pdpt k
            ≡ step (λ pd. pd.address) (walk_pd j) pdpt k)
          e
          (pdpt_IsOpened.same (walk_pd j) (write_pd pd_of is_pd) (pd_address pd_of is_pd)
            ∙ q
            ∙ sym (pdpt_IsOpened.before (walk_pd j) (walk_pd-new j)))

    pdpt_kept : IsPointerTable write_pdpt
    pdpt_kept =
        pdpt_IsOpened.kept (write_pd pd_of is_pd) (pd_address pd_of is_pd) (pd_kept pd_of is_pd)

    pdpt_address : write_pdpt.address ≡ pdpt.address
    pdpt_address = open_at-address pdpt i.pdpti (new_table new.pd) new.pd

  walk_pdpt-new : (j : Indices) → walk_pdpt j (new_table new.pdpt) ≡ none
  walk_pdpt-new j = step-new_table (λ pd. pd.address) (walk_pd j) new.pdpt j.pdpti

  module _ (own : ℕ → Type 0) (pml4 : PageMapLevel4Table) (v : IsTop own pml4)
      (o : own i.pml4i) where
    abbrev pml4_opened : PageDirectoryPointerTable × PageMapLevel4Table
    pml4_opened = open_at pml4 i.pml4i (new_table new.pdpt) new.pdpt

    pml4_IsOpened :
        IsOpened
          (λ pdpt. pdpt.address)
          IsPointerTable
          own
          pml4
          i.pml4i
          (new_table new.pdpt)
          pml4_opened
    pml4_IsOpened =
        open_at-IsOpened (λ pdpt. pdpt.address) IsPointerTable own pml4 v i.pml4i b.pml4i_inside
          (new_table new.pdpt) w.pdpt_placed
          (new_table-IsLevel (λ pd. pd.address) IsPageDirectory new.pdpt) o

    abbrev pdpt_of : PageDirectoryPointerTable
    pdpt_of = pml4_opened.0

    pub is_pdpt : IsPointerTable pdpt_of
    is_pdpt = pml4_IsOpened.child

    abbrev pub write_pml4 : PageMapLevel4Table
    write_pml4 = put_back pml4_opened.1 i.pml4i (write_pdpt pdpt_of is_pdpt)

    pub pml4_here : walk_pml4 i write_pml4 ≡ some access
    pml4_here =
        pml4_IsOpened.same (walk_pdpt i) (write_pdpt pdpt_of is_pdpt) (pdpt_address pdpt_of is_pdpt)
        ∙ pdpt_here pdpt_of is_pdpt

    pml4_below :
        (j : Indices)
        → i.pml4i ≡ j.pml4i
        → walk_pdpt j (write_pdpt pdpt_of is_pdpt) ≡ walk_pdpt j pdpt_of
        → walk_pml4 j write_pml4 ≡ walk_pml4 j pml4
    pml4_below j e q =
        subst
          (λ k.
            step (λ pdpt. pdpt.address) (walk_pdpt j) write_pml4 k
            ≡ step (λ pdpt. pdpt.address) (walk_pdpt j) pml4 k)
          e
          (pml4_IsOpened.same (walk_pdpt j) (write_pdpt pdpt_of is_pdpt)
              (pdpt_address pdpt_of is_pdpt)
            ∙ q
            ∙ sym (pml4_IsOpened.before (walk_pdpt j) (walk_pdpt-new j)))

    pub pml4_elsewhere : (j : Indices) → Differ i j → walk_pml4 j write_pml4 ≡ walk_pml4 j pml4
    pml4_elsewhere j (by_pml4i n) =
        pml4_IsOpened.other (walk_pdpt j) (write_pdpt pdpt_of is_pdpt) j.pml4i n
    pml4_elsewhere j (by_pdpti e n) = pml4_below j e (pdpt_elsewhere pdpt_of is_pdpt j n)
    pml4_elsewhere j (by_pdi e e' n) = pml4_below j e (
        pdpt_below pdpt_of is_pdpt j e'
          (pd_elsewhere (pd_of pdpt_of is_pdpt) (is_pd pdpt_of is_pdpt) j n))
    pml4_elsewhere j (by_pti e e' e'' n) = pml4_below j e (
        pdpt_below pdpt_of is_pdpt j e'
          (pd_below (pd_of pdpt_of is_pdpt) (is_pd pdpt_of is_pdpt) j e'' n))

    pub pml4_kept : IsTop own write_pml4
    pml4_kept =
        pml4_IsOpened.kept (write_pdpt pdpt_of is_pdpt) (pdpt_address pdpt_of is_pdpt)
          (pdpt_kept pdpt_of is_pdpt)
