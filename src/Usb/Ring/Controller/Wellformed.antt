-- ===== src/Usb/Ring/Controller/Wellformed.antt =====
-- src/usb/xhci/ring.hpp: what holds of a ring between calls, and of a controller that reads it.
use klee.Base.{ℕ, ◌-◌, ◌*◌, ◌≤◌, ◌<◌, ◌≡◌, ◌≢◌, ◌^◌, true, not, List, ◌++◌, length, if◌then◌else◌}
use klee.Usb.Ring.{
  bool_eq, Trb, Ring, cycle_bit_of, trb_type_of, link_type, toggle_cycle, get_link_pointer,
}
use klee.Usb.Ring.Slots.{at, slots}
use klee.Usb.Ring.Controller.{Consumer}

-- The slot at the end sends the controller to the start.
pub record IsLink (start : ℕ) (t : Trb) : Type 0 where
  pub is_link : trb_type_of t ≡ link_type
  pub toggles : toggle_cycle t ≡ true
  pub to_start : get_link_pointer t ≡ start

abbrev pub link_slot : Ring → ℕ
link_slot r = r.buffer_count - 1

-- The slots before the write index hold the ring's cycle bit, the others the bit of the round before.
pub record IsRing (r : Ring) : Type 0 where
  pub sized : 2 ≤ r.buffer_count
  pub fits : r.buffer_count < 2 ^ 64
  pub whole : length r.buffer ≡ r.buffer_count
  pub inside : r.write_index < link_slot r
  pub aligned : (a : ℕ) × (r.address ≡ a * 16)
  pub written : (i : ℕ) → i < r.write_index → cycle_bit_of (at r.buffer i) ≡ r.cycle_bit
  pub stale :
      (i : ℕ) → r.write_index ≤ i → i ≤ link_slot r → cycle_bit_of (at r.buffer i) ≡ not r.cycle_bit
  pub no_link : (i : ℕ) → i < link_slot r → trb_type_of (at r.buffer i) ≢ link_type

-- The controller is in the kernel's round and behind it, or in the round before.
pub data IsReader (r : Ring) (c : Consumer) : Type 0 where
  same_round : c.cycle ≡ r.cycle_bit → c.index ≤ r.write_index → IsReader r c
  round_before :
      c.cycle ≡ not r.cycle_bit
      → r.write_index < c.index
      → c.index ≤ link_slot r
      → IsLink r.address (at r.buffer (link_slot r))
      → IsReader r c

-- The TRBs that are written and not yet read.
abbrev pub outstanding : Ring → Consumer → List Trb
outstanding r c =
    if bool_eq c.cycle r.cycle_bit
    then slots r.buffer c.index (r.write_index - c.index)
    else slots r.buffer c.index (link_slot r - c.index) ++ slots r.buffer 0 r.write_index
