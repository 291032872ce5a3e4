-- ===== src/Usb/Ring/Fifo/Fetch.antt =====
-- src/usb/xhci/ring.hpp: what the controller finds is the first of what is outstanding.
use klee.Base.{
  suc, ◌+◌, ◌-◌, ◌/◌, ◌≤◌, ◌<◌, ◌≡◌, refl, sym, ap, ◌∙◌, subst, not, [], ◌∷◌, ◌++◌, Option, none,
  some, arith, ==_ne, ℕ_discrete, dec_lt,
}
use klee.Usb.Ring.{Trb, Ring, trb_type_of, link_type, cycle_bit_of}
use klee.Usb.Ring.Slots.{at, slots}
use klee.Usb.Ring.Controller.{Consumer, fetch, take_at, follow}
use klee.Usb.Ring.Controller.Wellformed.{
  IsRing, IsReader, same_round, round_before, outstanding, link_slot, IsLink,
}
use klee.Usb.Ring.Fifo.Queue.{bool_eq_refl, bool_eq-not, outstanding_same, outstanding_before}
use klee.Usb.Ring.Fifo.Push.{not-not}

-- Nothing is outstanding and nothing is found, or the first of what is outstanding is found and the
-- rest is left.
pub data IsFetched (r : Ring) (c : Consumer) (o : Option (Trb × Consumer)) : Type 0 where
  nothing : outstanding r c ≡ [] → o ≡ none → IsFetched r c o
  first :
      (t : Trb) (c' : Consumer)
      → o ≡ some (t, c')
      → IsReader r c'
      → outstanding r c ≡ t ∷ outstanding r c'
      → IsFetched r c o

module _ (r : Ring) (v : IsRing r) where
  fetch_inside : (c : Consumer) → c.index < link_slot r → fetch r c ≡ take_at r c
  unfolding fetch
  fetch_inside c h =
      rw (==_ne (trb_type_of (at r.buffer c.index)) link_type (v.no_link c.index h)) refl

  take_at_found :
      (c : Consumer)
      → cycle_bit_of (at r.buffer c.index) ≡ c.cycle
      → take_at r c ≡ some (at r.buffer c.index, record c { index = c.index + 1 })
  take_at_found c e = rw (e, bool_eq_refl c.cycle) refl

  take_at-none :
      (c : Consumer) → cycle_bit_of (at r.buffer c.index) ≡ not c.cycle → take_at r c ≡ none
  take_at-none c e = rw (e, bool_eq-not c.cycle) refl

  abbrev moved : Consumer → Consumer
  moved c = record c { index = c.index + 1 }

  -- Below the write index, in the kernel's round.
  fetch_same :
      (c : Consumer) → c.cycle ≡ r.cycle_bit → c.index ≤ r.write_index → IsFetched r c (take_at r c)
  fetch_same c e l =
      let i = v.inside in
      elim (ℕ_discrete c.index r.write_index) [
        | yes q ↦
            nothing (outstanding_same r c e ∙ rest_at_end q)
              (take_at-none c (v.stale c.index (omega arith) (omega arith) ∙ ap not (sym e)))
        | no q ↦
            first (at r.buffer c.index) (moved c)
              (take_at_found c (v.written c.index (omega arith) ∙ sym e))
              (same_round e (omega arith))
              (outstanding_same r c e
                ∙ more (omega arith)
                ∙ ap (◌∷◌ (at r.buffer c.index)) (sym (outstanding_same r (moved c) e)))
      ]
    where
      rest_at_end : c.index ≡ r.write_index → slots r.buffer c.index (r.write_index - c.index) ≡ []
      rest_at_end q =
          let z : r.write_index - c.index ≡ 0 = omega arith in ap (slots r.buffer c.index) z

      more :
          c.index < r.write_index
          → slots r.buffer c.index (r.write_index - c.index)
            ≡ at r.buffer c.index ∷ slots r.buffer (c.index + 1) (r.write_index - (c.index + 1))
      more h =
          let z : r.write_index - c.index ≡ suc (r.write_index - (c.index + 1)) = omega arith in
          let s : suc c.index ≡ c.index + 1 = omega arith in
          ap (slots r.buffer c.index) z
          ∙ ap (λ j. at r.buffer c.index ∷ slots r.buffer j (r.write_index - (c.index + 1))) s

  abbrev start : Consumer
  start = record { index = 0; cycle = r.cycle_bit }

  follow_link :
      (c : Consumer)
      → c.cycle ≡ not r.cycle_bit
      → (t : Trb) → IsLink r.address t
      → follow r t c ≡ start
  follow_link c e t k =
      let z : (r.address - r.address) / 16 ≡ 0 = omega arith in
      rw (k.toggles, k.to_start, z, e, not-not r.cycle_bit) refl

  fetch_link :
      (c : Consumer)
      → c.index ≡ link_slot r
      → c.cycle ≡ not r.cycle_bit
      → IsLink r.address (at r.buffer (link_slot r))
      → fetch r c ≡ take_at r start
  unfolding fetch
  fetch_link c i e k =
      let i' = v.inside in
      let k' : IsLink r.address (at r.buffer c.index) =
        subst (λ j. IsLink r.address (at r.buffer j)) (sym i) k in
      let b : cycle_bit_of (at r.buffer c.index) ≡ c.cycle =
        v.stale c.index (omega arith) (omega arith) ∙ sym e in
      rw (k'.is_link, b, bool_eq_refl c.cycle)
        (ap (take_at r) (follow_link c e (at r.buffer c.index) k'))

  fetch_before :
      (c : Consumer)
      → c.cycle ≡ not r.cycle_bit
      → r.write_index < c.index
      → c.index < link_slot r
      → IsLink r.address (at r.buffer (link_slot r))
      → IsFetched r c (take_at r c)
  fetch_before c e l h k =
      first (at r.buffer c.index) (moved c)
        (take_at_found c (v.stale c.index (omega arith) (omega arith) ∙ sym e))
        (round_before e (omega arith) (omega arith) k)
        (outstanding_before r c e
          ∙ ap (λ x. x ++ slots r.buffer 0 r.write_index) more
          ∙ ap (◌∷◌ (at r.buffer c.index)) (sym (outstanding_before r (moved c) e)))
    where
      more :
          slots r.buffer c.index (link_slot r - c.index)
          ≡ at r.buffer c.index ∷ slots r.buffer (c.index + 1) (link_slot r - (c.index + 1))
      more =
          let z : link_slot r - c.index ≡ suc (link_slot r - (c.index + 1)) = omega arith in
          let s : suc c.index ≡ c.index + 1 = omega arith in
          ap (slots r.buffer c.index) z
          ∙ ap (λ j. at r.buffer c.index ∷ slots r.buffer j (link_slot r - (c.index + 1))) s

  -- What is outstanding at the link is outstanding at the start.
  outstanding_link :
      (c : Consumer)
      → c.index ≡ link_slot r
      → c.cycle ≡ not r.cycle_bit
      → outstanding r c ≡ outstanding r start
  outstanding_link c i e =
      let z : link_slot r - c.index ≡ 0 = omega arith in
      let w : r.write_index ≡ r.write_index - 0 = omega arith in
      outstanding_before r c e
      ∙ ap (λ k. slots r.buffer c.index k ++ slots r.buffer 0 r.write_index) z
      ∙ ap (slots r.buffer 0) w
      ∙ sym (outstanding_same r start refl)

  at_link :
      (c : Consumer)
      → outstanding r c ≡ outstanding r start
      → IsFetched r start (take_at r start)
      → IsFetched r c (take_at r start)
  at_link c e (nothing z o) = nothing (e ∙ z) o
  at_link c e (first t c' o k s) = first t c' o k (e ∙ s)

  pub fetch-IsFetched : (c : Consumer) → IsReader r c → IsFetched r c (fetch r c)
  fetch-IsFetched c (same_round e l) =
      let i = v.inside in rw (fetch_inside c (omega arith)) (fetch_same c e l)
  fetch-IsFetched c (round_before e l m k) = elim (dec_lt c.index (link_slot r)) [
    | yes h ↦ rw (fetch_inside c h) (fetch_before c e l h k)
    | no h ↦
        let i : c.index ≡ link_slot r = omega arith in
        rw (fetch_link c i e k)
          (at_link c (outstanding_link c i e) (fetch_same start refl (omega arith)))
  ]
