-- ===== src/Usb/Ring/Fifo/Push.antt =====
-- src/usb/xhci/ring.hpp: what push does on the way and at the end of the ring.
use klee.Base.{
  ℕ, ◌+◌, ◌-◌, ◌%◌, ◌^◌, ◌≤◌, ◌<◌, ◌≡◌, ◌≢◌, refl, sym, ◌∙◌, Bool, true, false, not, List, length,
  set, length-set, get_or-set_self, get_or-set_ne, arith, ==_refl, ==_ne, ℕ_discrete, ◌⊎◌, inl, inr,
  dec_lt,
}
use klee.Usb.Ring.{
  Trb, zero_trb, Ring, stamp, push, copy_to_last, new_link_trb, cycle_bit_of, trb_type_of,
  link_type,
}
use klee.Usb.Ring.Slots.{at}
use klee.Usb.Ring.Controller.Wellformed.{IsRing, link_slot}
use klee.Usb.Ring.Fifo.Words.{cycle_bit_of-stamp, trb_type_of-stamp}

-- The ring after a TRB is written, before it is known whether that was the last slot.
abbrev pub advanced : Ring → Trb → Ring
advanced r t = record r {
  buffer = set r.buffer r.write_index (stamp r.cycle_bit t);
  write_index = r.write_index + 1;
}

abbrev pub rewound : Ring → Trb → Trb → Ring
rewound r rest t = record r {
  buffer =
      set (set r.buffer r.write_index (stamp r.cycle_bit t)) (r.write_index + 1)
        (stamp r.cycle_bit (new_link_trb rest r.address));
  write_index = 0;
  cycle_bit = not r.cycle_bit;
}

last_index : (n : ℕ) → 2 ≤ n → n < 2 ^ 64 → (n + (2 ^ 64 - 1)) % 2 ^ 64 ≡ n - 1
last_index n h l = omega arith

pub push_inside :
    (r : Ring) (rest t : Trb)
    → IsRing r
    → r.write_index + 1 < link_slot r
    → (push r rest t).1 ≡ advanced r t
unfolding push copy_to_last
push_inside r rest t v h =
    rw
      (
        last_index r.buffer_count v.sized v.fits,
        ==_ne (r.write_index + 1) (r.buffer_count - 1) (λ e. absurd (omega (arith, e))),
      )
      refl

pub push_last :
    (r : Ring) (rest t : Trb)
    → IsRing r
    → r.write_index + 1 ≡ link_slot r
    → (push r rest t).1 ≡ rewound r rest t
unfolding push copy_to_last
push_last r rest t v h =
    rw (last_index r.buffer_count v.sized v.fits, sym h, ==_refl (r.write_index + 1)) refl

pub push-cases :
    (r : Ring) → IsRing r → (r.write_index + 1 < link_slot r) ⊎ (r.write_index + 1 ≡ link_slot r)
push-cases r v = elim (dec_lt (r.write_index + 1) (link_slot r)) [
  | yes h ↦ inl h
  | no h ↦ let i = v.inside in inr (omega arith)
]

pub at-set_self : (b : List Trb) (i : ℕ) (t : Trb) → i < length b → at (set b i t) i ≡ t
at-set_self b i t h = get_or-set_self b i t zero_trb h

pub at-set_ne : (b : List Trb) (i j : ℕ) (t : Trb) → i ≢ j → at (set b i t) j ≡ at b j
at-set_ne b i j t h = get_or-set_ne b i j t zero_trb h

pub not-not : (b : Bool) → not (not b) ≡ b
not-not true = refl
not-not false = refl

-- A property of TRBs that the new one has, and the slots below it had.
pub below_set :
    (P : Trb → Type 0) (b : List Trb) (w : ℕ) (t : Trb)
    → w < length b
    → P t
    → ((i : ℕ) → i < w → P (at b i))
    → (i : ℕ) → i < w + 1
    → P (at (set b w t) i)
below_set P b w t l p below i h = elim (ℕ_discrete w i) [
  | yes e ↦ rw (sym e, at-set_self b w t l) p
  | no e ↦ rw (at-set_ne b w i t e) (below i (omega arith))
]

pub advanced-IsRing :
    (r : Ring) (t : Trb)
    → IsRing r
    → r.write_index + 1 < link_slot r
    → trb_type_of t ≢ link_type
    → IsRing (advanced r t)
advanced-IsRing r t v h d =
    let s = stamp r.cycle_bit t in
    let l : r.write_index < length r.buffer = let e = v.whole in omega arith in
    record {
      sized = v.sized;
      fits = v.fits;
      whole = length-set r.buffer r.write_index s ∙ v.whole;
      inside = h;
      aligned = v.aligned;
      written =
          below_set (λ x. cycle_bit_of x ≡ r.cycle_bit) r.buffer r.write_index s l
            (cycle_bit_of-stamp r.cycle_bit t) v.written;
      stale = λ i low high.
          rw (at-set_ne r.buffer r.write_index i s (λ e. absurd (omega (arith, e))))
            (v.stale i (omega arith) high);
      no_link = λ i low. elim (ℕ_discrete r.write_index i) [
        | yes e ↦
            rw (sym e, at-set_self r.buffer r.write_index s l, trb_type_of-stamp r.cycle_bit t) d
        | no e ↦ rw (at-set_ne r.buffer r.write_index i s e) (v.no_link i low)
      ];
    }
