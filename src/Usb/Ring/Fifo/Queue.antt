-- ===== src/Usb/Ring/Fifo/Queue.antt =====
-- src/usb/xhci/ring.hpp: push puts its TRB at the end of what is outstanding.
use klee.Base.{
  ℕ, suc, ◌+◌, ◌-◌, ◌≤◌, ◌<◌, ◌≡◌, ◌≢◌, refl, sym, ap, ◌∙◌, subst, Bool, true, false, not, List, [],
  ◌∷◌, ◌++◌, length, length-append, set, arith, inl, inr, append_assoc, append_nil,
}
use klee.Usb.Ring.{bool_eq, Trb, Ring, stamp, push, trb_type_of, link_type, new_link_trb}
use klee.Usb.Ring.Slots.{at, slots, slots_snoc, slots-set_past, slots-set_before, length-slots}
use klee.Usb.Ring.Controller.{Consumer}
use klee.Usb.Ring.Controller.Wellformed.{
  IsRing, IsReader, same_round, round_before, outstanding, link_slot, IsLink,
}
use klee.Usb.Ring.Fifo.Push.{
  advanced, rewound, push_inside, push_last, push-cases, advanced-IsRing, at-set_self, at-set_ne,
  not-not,
}
use klee.Usb.Ring.Fifo.Rewind.{rewound-IsRing, rewound-IsLink}

pub bool_eq_refl : (b : Bool) → bool_eq b b ≡ true
bool_eq_refl true = refl
bool_eq_refl false = refl

pub bool_eq-not : (b : Bool) → bool_eq (not b) b ≡ false
bool_eq-not true = refl
bool_eq-not false = refl

-- `k` slots from `d`, and then the one that is written behind them.
pub slots-set_next :
    (b : List Trb) (d k w : ℕ) (t : Trb)
    → d + k ≡ w
    → w < length b
    → slots (set b w t) d (suc k) ≡ slots b d k ++ t ∷ []
slots-set_next b d k w t e l =
    slots_snoc (set b w t) d k
    ∙ ap (λ x. x ++ at (set b w t) (d + k) ∷ []) (slots-set_past b d k w t (omega (arith, e)))
    ∙ ap (λ i. slots b d k ++ at (set b w t) i ∷ []) e
    ∙ ap (λ x. slots b d k ++ x ∷ []) (at-set_self b w t l)

pub outstanding_same :
    (r : Ring) (c : Consumer)
    → c.cycle ≡ r.cycle_bit
    → outstanding r c ≡ slots r.buffer c.index (r.write_index - c.index)
outstanding_same r c e = rw (e, bool_eq_refl r.cycle_bit) refl

pub outstanding_before :
    (r : Ring) (c : Consumer)
    → c.cycle ≡ not r.cycle_bit
    → outstanding r c
      ≡ slots r.buffer c.index (link_slot r - c.index) ++ slots r.buffer 0 r.write_index
outstanding_before r c e = rw (e, bool_eq-not r.cycle_bit) refl

-- What a push of `t` makes of a ring and the controller's view of it.
pub record IsPushed (r r' : Ring) (c : Consumer) (t : Trb) : Type 0 where
  pub ring : IsRing r'
  pub reader : IsReader r' c
  pub appended : outstanding r' c ≡ outstanding r c ++ stamp r.cycle_bit t ∷ []
  pub same_size : link_slot r' ≡ link_slot r

module _ (r : Ring) (c : Consumer) (rest t : Trb) (v : IsRing r)
    (d : trb_type_of t ≢ link_type) where
  in_buffer : r.write_index < length r.buffer
  in_buffer = let e = v.whole in let i = v.inside in omega arith

  advanced_same :
      r.write_index + 1 < link_slot r
      → c.cycle ≡ r.cycle_bit
      → c.index ≤ r.write_index
      → IsPushed r (advanced r t) c t
  advanced_same h e l =
      let one_more : r.write_index + 1 - c.index ≡ suc (r.write_index - c.index) = omega arith in
      record {
        ring = advanced-IsRing r t v h d;
        reader = same_round e (omega arith);
        appended =
            outstanding_same (advanced r t) c e
            ∙ ap (slots (advanced r t).buffer c.index) one_more
            ∙ slots-set_next r.buffer c.index (r.write_index - c.index) r.write_index
                (stamp r.cycle_bit t) (omega arith) in_buffer
            ∙ ap (λ x. x ++ stamp r.cycle_bit t ∷ []) (sym (outstanding_same r c e));
        same_size = refl;
      }

  advanced_before :
      r.write_index + 1 < c.index
      → c.index ≤ link_slot r
      → c.cycle ≡ not r.cycle_bit
      → IsLink r.address (at r.buffer (link_slot r))
      → IsPushed r (advanced r t) c t
  advanced_before l m e k =
      let plus_one : r.write_index + 1 ≡ suc r.write_index = omega arith in
      record {
        ring = advanced-IsRing r t v (omega arith) d;
        reader = round_before e l m (
            subst (IsLink r.address)
              (sym (
                at-set_ne r.buffer r.write_index (link_slot r) (stamp r.cycle_bit t)
                  (λ q. absurd (omega (arith, q)))))
              k);
        appended =
            outstanding_before (advanced r t) c e
            ∙ ap (λ x. x ++ slots (advanced r t).buffer 0 (r.write_index + 1))
                (slots-set_before r.buffer c.index (link_slot r - c.index) r.write_index
                  (stamp r.cycle_bit t) (omega arith))
            ∙ ap (λ x. slots r.buffer c.index (link_slot r - c.index) ++ x)
                (ap (slots (advanced r t).buffer 0) plus_one
                  ∙ slots-set_next r.buffer 0 r.write_index r.write_index (stamp r.cycle_bit t)
                      (omega arith) in_buffer)
            ∙ sym (
                append_assoc (slots r.buffer c.index (link_slot r - c.index))
                  (slots r.buffer 0 r.write_index) (stamp r.cycle_bit t ∷ []))
            ∙ ap (λ x. x ++ stamp r.cycle_bit t ∷ []) (sym (outstanding_before r c e));
        same_size = refl;
      }

  rewound_same :
      r.write_index + 1 ≡ link_slot r
      → c.cycle ≡ r.cycle_bit
      → c.index ≤ r.write_index
      → 0 < c.index
      → IsPushed r (rewound r rest t) c t
  rewound_same h e l p =
      let one_more : link_slot r - c.index ≡ suc (r.write_index - c.index) = omega arith in
      record {
        ring = rewound-IsRing r rest t v h d;
        reader =
            round_before (e ∙ sym (not-not r.cycle_bit)) p (omega arith)
              (rewound-IsLink r rest t v h);
        appended =
            outstanding_before (rewound r rest t) c (e ∙ sym (not-not r.cycle_bit))
            ∙ append_nil (slots (rewound r rest t).buffer c.index (link_slot r - c.index))
            ∙ slots-set_past (advanced r t).buffer c.index (link_slot r - c.index)
                (r.write_index + 1) (stamp r.cycle_bit (new_link_trb rest r.address)) (omega arith)
            ∙ ap (slots (advanced r t).buffer c.index) one_more
            ∙ slots-set_next r.buffer c.index (r.write_index - c.index) r.write_index
                (stamp r.cycle_bit t) (omega arith) in_buffer
            ∙ ap (λ x. x ++ stamp r.cycle_bit t ∷ []) (sym (outstanding_same r c e));
        same_size = refl;
      }

  push_same :
      c.cycle ≡ r.cycle_bit
      → c.index ≤ r.write_index
      → suc (length (outstanding r c)) < link_slot r
      → IsPushed r (push r rest t).1 c t
  push_same e l room = elim (push-cases r v) [
    | inl h ↦ rw (push_inside r rest t v h) (advanced_same h e l)
    | inr h ↦
        let size : length (outstanding r c) ≡ r.write_index - c.index =
          ap length (outstanding_same r c e)
          ∙ length-slots r.buffer c.index (r.write_index - c.index) in
        rw (push_last r rest t v h) (rewound_same h e l (omega (arith, size)))
  ]

  push_before :
      c.cycle ≡ not r.cycle_bit
      → r.write_index < c.index
      → c.index ≤ link_slot r
      → IsLink r.address (at r.buffer (link_slot r))
      → suc (length (outstanding r c)) < link_slot r
      → IsPushed r (push r rest t).1 c t
  push_before e l m k room =
      let ahead = length-slots r.buffer c.index (link_slot r - c.index) in
      let wrapped = length-slots r.buffer 0 r.write_index in
      let size =
        ap length (outstanding_before r c e)
        ∙ length-append (slots r.buffer c.index (link_slot r - c.index))
            (slots r.buffer 0 r.write_index) in
      let near : r.write_index + 1 < c.index = omega (arith, size, ahead, wrapped) in
      rw (push_inside r rest t v (omega arith)) (advanced_before near m e k)

  -- A push into a ring with two slots to spare.
  pub push-IsPushed :
      IsReader r c → suc (length (outstanding r c)) < link_slot r → IsPushed r (push r rest t).1 c t
  push-IsPushed (same_round e l) room = push_same e l room
  push-IsPushed (round_before e l m k) room = push_before e l m k room
