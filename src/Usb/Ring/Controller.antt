-- ===== src/Usb/Ring/Controller.antt =====
-- src/usb/xhci/ring.hpp: the other side of a ring. The controller reads TRBs in order as long as their
-- cycle bit is its own, and goes where a link TRB points to.
pub mod Wellformed
use klee.Base.{
  ℕ, ◌+◌, ◌-◌, ◌*◌, ◌/◌, ◌≡◌, Bool, true, false, not, List, [], ◌∷◌, ◌++◌, Option, none, some, ◌==◌,
  if◌then◌else◌,
}
use klee.Usb.Ring.{
  bool_eq, Trb, Ring, cycle_bit_of, trb_type_of, link_type, toggle_cycle, get_link_pointer, push,
}
use klee.Usb.Ring.Slots.{at}

-- Where the controller stands, as an index into the ring, and its cycle bit.
pub record Consumer : Type 0 where
  pub index : ℕ
  pub cycle : Bool

abbrev pub toggled : Trb → Bool → Bool
toggled link cycle = if toggle_cycle link then not cycle else cycle

abbrev pub follow : Ring → Trb → Consumer → Consumer
follow r link c = record {
  index = (get_link_pointer link - r.address) / 16;
  cycle = toggled link c.cycle;
}

abbrev pub take_at : Ring → Consumer → Option (Trb × Consumer)
take_at r c =
    let t = at r.buffer c.index in
    if bool_eq (cycle_bit_of t) c.cycle then some (t, record c { index = c.index + 1 }) else none

-- The next TRB that is not a link, if the kernel has written one.
unfoldable pub fetch : Ring → Consumer → Option (Trb × Consumer)
fetch r c =
    let t = at r.buffer c.index in
    if trb_type_of t == link_type
    then if bool_eq (cycle_bit_of t) c.cycle then take_at r (follow r t c) else none
    else take_at r c

-- A TRB as its receiver reads it: all but the cycle bit.
abbrev pub payload : Trb → Trb
payload t = record t { data3 = t.data3 / 2 * 2 }
