-- ===== src/Usb/Ring/Events/Start.antt =====
-- src/usb/xhci/ring.hpp: the ring of events after initialize.
use klee.Base.{
  ℕ, ◌+◌, ◌*◌, ◌/◌, ◌%◌, ◌≤◌, ◌<◌, ◌≡◌, refl, ap, ◌∙◌, sym, true, some, arith, length-replicate,
}
use klee.Usb.Ring.{EventRing, Interrupter, zero_trb, cycle_bit_of, initialize_events}
use klee.Usb.Ring.Events.{Posting, IsPosting, same_round}
use klee.Usb.Ring.Fifo.Run.{at-replicate}

abbrev pub start : EventRing → ℕ → Interrupter → ℕ → ℕ → Posting
start q n i a entry = record {
  ring = (initialize_events q n i (some (a * 16)) (some entry)).1;
  index = 0;
  cycle = true;
}

start_pointer : (a e : ℕ) → (a * 16 / 16 * 16 + e % 16) / 16 * 16 ≡ a * 16 + 16 * 0
start_pointer a e = omega arith

below_limit : (n : ℕ) → n < 65536 → n % 65536 ≡ n
below_limit n h = omega arith

pub initialize_events-IsPosting :
    (q : EventRing) (n : ℕ) (i : Interrupter) (a entry : ℕ)
    → 1 ≤ n
    → n < 65536
    → IsPosting (start q n i a entry) 0
unfolding initialize_events
initialize_events-IsPosting q n i a entry h l =
    let size = below_limit n l in
    record {
      placed = refl;
      aligned = (a, refl);
      whole = length-replicate n zero_trb ∙ sym size;
      inside = omega (arith, size);
      reads = start_pointer a i.erdp;
      reads_inside = omega (arith, size);
      behind = same_round refl (omega arith);
      written = λ j low. absurd (omega arith);
      stale = λ j low high. ap cycle_bit_of (at-replicate n j);
    }
