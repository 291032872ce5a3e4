-- ===== src/Usb/Ring/Events.antt =====
-- src/usb/xhci/ring.hpp: the controller's side of the ring of events. It has no links: the controller
-- knows the ring's size from the segment table.
pub mod Ahead
pub mod Delivery
pub mod Start
use klee.Base.{
  ℕ, ◌+◌, ◌-◌, ◌*◌, ◌≤◌, ◌<◌, ◌≡◌, Bool, true, false, not, List, ◌++◌, length, set, ◌==◌,
  if◌then◌else◌,
}
use klee.Usb.Ring.{bool_eq, Trb, EventRing, read_dequeue_pointer, stamp, cycle_bit_of}
use klee.Usb.Ring.Slots.{at, slots}

-- Where the controller writes next, with the kernel's ring.
pub record Posting : Type 0 where
  pub ring : EventRing
  pub index : ℕ
  pub cycle : Bool

abbrev pub posted : Posting → Trb → Posting
posted p t =
    let q = p.ring in
    record p {
      ring = record q { buffer = set q.buffer p.index (stamp p.cycle t) };
      index = p.index + 1;
    }

unfoldable pub post : Posting → Trb → Posting
post p t =
    let p' = posted p t in
    if p'.index == p.ring.entry.ring_segment_size
    then record p' { index = 0; cycle = not p.cycle }
    else p'

abbrev pub size_of : Posting → ℕ
size_of p = p.ring.entry.ring_segment_size

-- `d` is the index that the kernel reads next.
pub data IsBehind (p : Posting) (d : ℕ) : Type 0 where
  same_round : p.ring.cycle_bit ≡ p.cycle → d ≤ p.index → IsBehind p d
  round_before : p.ring.cycle_bit ≡ not p.cycle → p.index < d → IsBehind p d

pub record IsPosting (p : Posting) (d : ℕ) : Type 0 where
  pub placed : p.ring.entry.ring_segment_base_address ≡ p.ring.address
  pub aligned : (a : ℕ) × (p.ring.address ≡ a * 16)
  pub whole : length p.ring.buffer ≡ size_of p
  pub inside : p.index < size_of p
  pub reads : read_dequeue_pointer p.ring ≡ p.ring.address + 16 * d
  pub reads_inside : d < size_of p
  pub behind : IsBehind p d
  pub written : (i : ℕ) → i < p.index → cycle_bit_of (at p.ring.buffer i) ≡ p.cycle
  pub stale :
      (i : ℕ) → p.index ≤ i → i < size_of p → cycle_bit_of (at p.ring.buffer i) ≡ not p.cycle

-- The events that are written and not yet read.
abbrev pub pending : Posting → ℕ → List Trb
pending p d =
    if bool_eq p.ring.cycle_bit p.cycle
    then slots p.ring.buffer d (p.index - d)
    else slots p.ring.buffer d (size_of p - d) ++ slots p.ring.buffer 0 p.index
