-- ===== src/Usb/Tests.antt =====
-- Runs of src/usb/xhci/ring.hpp.
use klee.Base.{ℕ, ◌-◌, ◌*◌, ◌<◌, ◌≡◌, ◌≢◌, List, [], ◌∷◌, none, some, arith, false}
use klee.Usb.Ring.{Trb, Ring, initialize, link_type, Interrupter, EventRing, initialize_events}
use klee.Usb.Ring.Events.{Posting, IsPosting, post}
use klee.Usb.Ring.Events.Ahead.{post-IsPosted}
use klee.Usb.Ring.Events.Delivery.{IsDelivered, pop-IsDelivered}
use klee.Usb.Ring.Events.Start.{start, initialize_events-IsPosting}
use klee.Usb.Ring.Fifo.Run.{Action, pushes, fetches, run, IsPaced, run-fifo, at_start}

abbrev command : ℕ → Trb
command n = record { data0 = n; data1 = 0; data2 = 0; data3 = 9216 }

abbrev unset : Ring
unset = record { address = 0; buffer = []; buffer_count = 0; write_index = 0; cycle_bit = false }

-- A ring of four slots, three of them for commands, and five commands.
abbrev steps : List Action
steps =
    pushes (command 7) (command 1)
    ∷ fetches
    ∷ pushes (command 7) (command 2)
    ∷ fetches
    ∷ fetches
    ∷ pushes (command 7) (command 3)
    ∷ fetches
    ∷ pushes (command 7) (command 4)
    ∷ fetches
    ∷ []

steps-IsPaced : IsPaced (4 - 1) steps 0
unfolding IsPaced
steps-IsPaced =
    let no_link : 9 ≢ link_type = λ e. absurd (omega (arith, e)) in
    let room : 1 < 3 = omega arith in
    (room, no_link, (room, no_link, (room, no_link, (room, no_link, tt))))

run-fifo_example :
    run steps (initialize unset 4 (some (256 * 16))).1 at_start
    ≡ some (command 1) ∷ some (command 2) ∷ none ∷ some (command 3) ∷ some (command 4) ∷ []
run-fifo_example = run-fifo unset 4 256 steps (omega arith) (omega arith) steps-IsPaced

abbrev registers : Interrupter
registers = record { erdp = 8; erstba = 0; erstsz = 0 }

abbrev unset_events : EventRing
unset_events = record {
  address = 0;
  buffer = [];
  buffer_count = 0;
  entry = record { ring_segment_base_address = 0; ring_segment_size = 0 };
  interrupter = registers;
  cycle_bit = false;
}

-- A ring of three events after one event.
abbrev one_event : Posting
one_event = post (start unset_events 3 registers 512 4096) (command 9)

one_event-IsPosting : IsPosting one_event 0
unfolding initialize_events
one_event-IsPosting =
    (post-IsPosted (start unset_events 3 registers 512 4096) 0 (command 9)
      (initialize_events-IsPosting unset_events 3 registers 512 4096 (omega arith) (omega arith))
      (omega arith)).posting

pop-IsDelivered_example : IsDelivered one_event 0
pop-IsDelivered_example = pop-IsDelivered one_event 0 one_event-IsPosting
