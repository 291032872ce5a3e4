-- ===== src/Virtio/Tests.antt =====
-- Runs of src/virtio/queue.hpp: a queue of four descriptors.
use klee.Base.{◌≡◌, refl, [], some, arith}
use klee.Virtio.Queue.{Queue, new_queue}
use klee.Virtio.Queue.Exchange.{IsIdle, IsExchanged, notify_device-IsExchanged}

abbrev four : Queue
four = new_queue [] 4 (some 40960)

IsIdle-four : IsIdle four
unfolding new_queue
IsIdle-four = record {
  sized = omega arith;
  whole = refl;
  answers = refl;
  published = refl;
  nothing_added = refl;
  word = omega arith;
}

last_used-four : four.last_used ≡ 0
unfolding new_queue
last_used-four = refl

notify_device-IsExchanged_example : IsExchanged four IsIdle-four 24 100 0
notify_device-IsExchanged_example =
    notify_device-IsExchanged four IsIdle-four 24 100 0 (omega (arith, last_used-four))
      (omega arith) (omega arith)
