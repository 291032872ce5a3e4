-- ===== src/Usb/Ring/Fifo/Rewind.antt =====
-- src/usb/xhci/ring.hpp: the ring after push wrote its last slot and the link behind it.
use klee.Base.{ℕ, ◌+◌, ◌<◌, ◌≡◌, ◌≢◌, sym, ◌∙◌, List, length, set, length-set, arith, subst}
use klee.Usb.Ring.{Trb, Ring, stamp, new_link_trb, cycle_bit_of, trb_type_of, link_type}
use klee.Usb.Ring.Slots.{at}
use klee.Usb.Ring.Controller.Wellformed.{IsRing, IsLink, link_slot}
use klee.Usb.Ring.Fifo.Words.{
  cycle_bit_of-stamp, trb_type_of-stamp, trb_type_of-new_link_trb, toggle_cycle-new_link_trb,
  get_link_pointer-new_link_trb,
}
use klee.Usb.Ring.Fifo.Push.{rewound, below_set, at-set_self, at-set_ne, not-not}

module _ (r : Ring) (rest t : Trb) (v : IsRing r) (last : r.write_index + 1 ≡ link_slot r) where
  abbrev command : Trb
  command = stamp r.cycle_bit t

  abbrev link : Trb
  link = stamp r.cycle_bit (new_link_trb rest r.address)

  abbrev filled : List Trb
  filled = set r.buffer r.write_index command

  long : r.write_index + 1 < length r.buffer
  long = let e = v.whole in let s = v.sized in omega arith

  longer : r.write_index + 1 < length filled
  longer = rw (length-set r.buffer r.write_index command) long

  pub at_link : at (rewound r rest t).buffer (r.write_index + 1) ≡ link
  at_link = at-set_self filled (r.write_index + 1) link longer

  cycle_of_written : (i : ℕ) → i < r.write_index + 1 → cycle_bit_of (at filled i) ≡ r.cycle_bit
  cycle_of_written =
      below_set (λ x. cycle_bit_of x ≡ r.cycle_bit) r.buffer r.write_index command
        (omega (arith, long)) (cycle_bit_of-stamp r.cycle_bit t) v.written

  cycle_of_all :
      (i : ℕ)
      → i < r.write_index + 1 + 1
      → cycle_bit_of (at (rewound r rest t).buffer i) ≡ r.cycle_bit
  cycle_of_all =
      below_set (λ x. cycle_bit_of x ≡ r.cycle_bit) filled (r.write_index + 1) link longer
        (cycle_bit_of-stamp r.cycle_bit (new_link_trb rest r.address)) cycle_of_written

  pub rewound-IsRing : trb_type_of t ≢ link_type → IsRing (rewound r rest t)
  rewound-IsRing d = record {
    sized = v.sized;
    fits = v.fits;
    whole =
        length-set filled (r.write_index + 1) link
        ∙ length-set r.buffer r.write_index command
        ∙ v.whole;
    inside = let s = v.sized in omega arith;
    aligned = v.aligned;
    written = λ i low. absurd (omega arith);
    stale = λ i low high. cycle_of_all i (omega (arith, last)) ∙ sym (not-not r.cycle_bit);
    no_link = λ i low.
        rw (at-set_ne filled (r.write_index + 1) i link (λ e. absurd (omega (arith, e, last)))) (
          below_set (λ x. trb_type_of x ≢ link_type) r.buffer r.write_index command
            (omega (arith, long)) (rw (trb_type_of-stamp r.cycle_bit t) d)
            (λ j b. v.no_link j (omega (arith, last))) i (omega (arith, last)));
  }

  pub rewound-IsLink : IsLink r.address (at (rewound r rest t).buffer (link_slot r))
  rewound-IsLink =
      subst (λ i. IsLink r.address (at (rewound r rest t).buffer i)) last
        (rw at_link record {
          is_link = trb_type_of-new_link_trb r.cycle_bit rest r.address;
          toggles = toggle_cycle-new_link_trb r.cycle_bit rest r.address;
          to_start =
              get_link_pointer-new_link_trb r.cycle_bit rest r.address v.aligned.0 v.aligned.1;
        })
