-- ===== src/Virtio/Queue.antt =====
-- src/virtio/queue.hpp: a queue of buffers. The kernel fills descriptors and publishes them in the
-- available ring, the device answers in the used ring. Buffers are addresses; the notification is the
-- number that is written to the device.
pub mod Exchange
use klee.Base.{
  ℕ, zero, suc, ◌+◌, ◌-◌, ◌*◌, ◌/◌, ◌%◌, ◌^◌, Bool, true, false, not, List, [], ◌∷◌, Option, none,
  some, get_or, set, replicate, length, ltb, ◌==◌, if◌then◌else◌,
}

pub record Descriptor : Type 0 where
  pub addr : ℕ
  pub len : ℕ
  pub flags : ℕ
  pub next_index : ℕ

-- Descriptor::next and Descriptor::write
abbrev pub next_flag : ℕ
next_flag = 1

abbrev pub write_flag : ℕ
write_flag = 2

abbrev pub has_next : Descriptor → Bool
has_next d = d.flags % 2 == 1

abbrev pub is_writable : Descriptor → Bool
is_writable d = d.flags / 2 % 2 == 1

abbrev pub no_descriptor : Descriptor
no_descriptor = record { addr = 0; len = 0; flags = 0; next_index = 0 }

pub record AvailableRing : Type 0 where
  pub flags : ℕ
  pub index : ℕ
  pub ring : List ℕ

-- UsedRing::Elem
pub record Elem : Type 0 where
  pub id : ℕ
  pub len : ℕ

pub record UsedRing : Type 0 where
  pub flags : ℕ
  pub index : ℕ
  pub ring : List Elem

abbrev pub create_available : ℕ → AvailableRing
create_available size = record { flags = 0; index = 0; ring = replicate size 0 }

abbrev pub create_used : ℕ → UsedRing
create_used size = record {
  flags = 0;
  index = 0;
  ring = replicate size (record { id = 0; len = 0 });
}

pub record Queue : Type 0 where
  pub descriptors : List Descriptor
  pub available : AvailableRing
  pub used : UsedRing
  pub added_descriptors : ℕ
  pub free_head : ℕ
  pub last_used : ℕ
  pub size : ℕ

abbrev pub bytes_per_frame : ℕ
bytes_per_frame = 4096

abbrev pub descriptor_at : Queue → ℕ → Descriptor
descriptor_at q i = get_or q.descriptors i no_descriptor

-- The buffer's address, and the queue.
unfoldable pub get_next_descriptor_buffer : Queue → ℕ → ℕ × Queue
get_next_descriptor_buffer q len' =
    let i = q.free_head % q.size in
    let d = descriptor_at q i in
    (
      d.addr,
      record q {
        descriptors = set q.descriptors i (record d { len = len' % 2 ^ 32 });
        free_head = (q.free_head + 2) % 2 ^ 32;
        added_descriptors = (q.added_descriptors + 1) % 2 ^ 32;
      },
    )

-- `(free_head - (added_descriptors - i) * 2) % size`, in 32 bits
abbrev pub descriptor_index : Queue → ℕ → ℕ
descriptor_index q i =
    (q.free_head + 2 ^ 32 - (q.added_descriptors - i) * 2 % 2 ^ 32) % 2 ^ 32 % q.size

-- A descriptor for the request and the one behind it for the response.
abbrev pub chain_at : Queue → List Descriptor → ℕ → List Descriptor
chain_at q ds i =
    let j = (i + 1) % q.size in
    let request = get_or ds (i % q.size) no_descriptor in
    let requested = set ds (i % q.size) (record request { flags = next_flag; next_index = j }) in
    let response = get_or requested j no_descriptor in
    set requested j (record response { flags = write_flag; len = bytes_per_frame })

abbrev pub publish : Queue → ℕ → Queue
publish q i =
    let a = q.available in
    let d = descriptor_index q i in
    record q {
      descriptors = chain_at q q.descriptors d;
      available = record a {
        ring = set a.ring (a.index % q.size) d;
        index = (a.index + 1) % 2 ^ 16;
      };
    }

-- The loop's rounds from `i` on.
abbrev pub publish_all : Queue → ℕ → ℕ → Queue
publish_all q i zero = q
publish_all q i (suc rounds) = publish_all (publish q i) (i + 1) rounds

-- The number written to the notify address, and the queue.
unfoldable pub notify_device : Queue → ℕ × Queue
notify_device q =
    let q' = publish_all q 0 q.added_descriptors in
    (q'.available.index, record q' { added_descriptors = 0 })

-- The loop of read_one_buffer from descriptor `i`: the address of the first writable descriptor of the
-- chain, `nullptr` (0) if the chain ends before one. Nothing if the fuel does not suffice.
abbrev pub find_result : Queue → ℕ → ℕ → Option ℕ
find_result q zero i = none
find_result q (suc fuel) i =
    let d = descriptor_at q i in
    let rest = find_result q fuel d.next_index in
    if is_writable d then some d.addr else if has_next d then rest else some 0

-- What read_one_buffer returns and writes through its two arguments.
pub record Received : Type 0 where
  pub returned : Bool
  pub request : ℕ
  pub result : ℕ

abbrev pub elem_at : Queue → ℕ → Elem
elem_at q i = get_or q.used.ring i (record { id = 0; len = 0 })

abbrev pub received : Queue → Elem → Option ℕ → Option Received
received q e none = none
received q e (some result) =
    some (record { returned = true; request = (descriptor_at q e.id).addr; result = result })

abbrev pub receive : Queue → ℕ → Elem → Option Received
receive q fuel e =
    if e.len == 0
    then some (record { returned = true; request = 0; result = 0 })
    else if ltb bytes_per_frame e.len
    then some (record { returned = true; request = 0; result = 0 })
    else received q e (find_result q fuel e.id)

-- The arguments are not written when it returns false; they read 0 here. A chain without a writable
-- descriptor may be endless, then there is nothing.
unfoldable pub read_one_buffer : Queue → ℕ → Option Received × Queue
read_one_buffer q fuel =
    if q.last_used == q.used.index
    then (some (record { returned = false; request = 0; result = 0 }), q)
    else (
      receive q fuel (elem_at q (q.last_used % q.size)),
      record q { last_used = (q.last_used + 1) % 2 ^ 32 },
    )

-- The descriptors of the constructor, from number `i` on. Frames are 4096 bytes apart.
abbrev pub new_descriptors : ℕ → ℕ → ℕ → ℕ → List Descriptor
new_descriptors frame size i zero = []
new_descriptors frame size i (suc count) =
    record {
      addr = frame + i * bytes_per_frame;
      len = bytes_per_frame;
      flags = 0;
      next_index = if i + 1 == size then 0 else i + 1;
    }
    ∷ new_descriptors frame size (i + 1) count

-- `frame` is what memory::allocate gave. Without frames the descriptors stay as `new` leaves them,
-- here as in `rest`.
unfoldable pub new_queue : List Descriptor → ℕ → Option ℕ → Queue
new_queue rest size none = record {
  descriptors = rest;
  available = create_available size;
  used = create_used size;
  added_descriptors = 0;
  free_head = 0;
  last_used = 0;
  size = size;
}
new_queue rest size (some frame) = record {
  descriptors = new_descriptors frame size 0 size;
  available = create_available size;
  used = create_used size;
  added_descriptors = 0;
  free_head = 0;
  last_used = 0;
  size = size;
}
