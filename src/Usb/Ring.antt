-- ===== src/Usb/Ring.antt =====
-- src/usb/xhci/ring.hpp: the ring of commands and transfers, written by the kernel and read by the
-- controller, and the ring of events, the other way around. A ring's memory is the list of its TRBs,
-- which starts at `address`; a pointer is an address. An allocation gives the address or nothing.
pub mod Slots
pub mod Controller
pub mod Fifo
pub mod Events
use klee.Base.{
  ℕ, ◌+◌, ◌-◌, ◌*◌, ◌/◌, ◌%◌, ◌^◌, Bool, true, false, not, ◌||◌, List, [], Option, none, some,
  get_or, set, replicate, ◌==◌, if◌then◌else◌, Code, success, no_enough_memory,
}

-- The four words of a TRB.
pub record Trb : Type 0 where
  pub data0 : ℕ
  pub data1 : ℕ
  pub data2 : ℕ
  pub data3 : ℕ

abbrev pub zero_trb : Trb
zero_trb = record { data0 = 0; data1 = 0; data2 = 0; data3 = 0 }

abbrev pub bit : Bool → ℕ
bit true = 1
bit false = 0

-- `bits.cycle_bit` and `bits.trb_type` of TRB
abbrev pub cycle_bit_of : Trb → Bool
cycle_bit_of t = t.data3 % 2 == 1

abbrev pub trb_type_of : Trb → ℕ
trb_type_of t = t.data3 / 1024 % 64

abbrev pub link_type : ℕ
link_type = 6

-- LinkTRB::get_pointer and bits.toggle_cycle
abbrev pub get_link_pointer : Trb → ℕ
get_link_pointer t = t.data1 * 4294967296 + t.data0 / 16 * 16

abbrev pub toggle_cycle : Trb → Bool
toggle_cycle t = t.data3 / 2 % 2 == 1

-- LinkTRB's constructor, then `toggle_cycle = true`. It sets no other field: `rest` is what the words
-- held before.
abbrev pub new_link_trb : Trb → ℕ → Trb
new_link_trb rest pointer = record {
  data0 = pointer % 4294967296 / 16 * 16 + rest.data0 % 16;
  data1 = pointer / 4294967296;
  data2 = rest.data2;
  data3 =
      rest.data3 / 65536 * 65536 + link_type * 1024 + rest.data3 / 4 % 256 * 4 + 2 + rest.data3 % 2;
}

pub record Ring : Type 0 where
  pub address : ℕ
  pub buffer : List Trb
  pub buffer_count : ℕ
  pub write_index : ℕ
  pub cycle_bit : Bool

-- `data[3] & 0xFFFFFFFE | cycle_bit`
abbrev pub stamp : Bool → Trb → Trb
stamp cycle t = record t { data3 = t.data3 / 2 * 2 + bit cycle }

unfoldable pub copy_to_last : Ring → Trb → Ring
copy_to_last r t = record r { buffer = set r.buffer r.write_index (stamp r.cycle_bit t) }

abbrev pub wrap : Ring → Trb → Ring
wrap r rest =
    let linked = copy_to_last r (new_link_trb rest r.address) in
    record linked { write_index = 0; cycle_bit = not r.cycle_bit }

-- Returns the pointer to the TRB. `buffer_count - 1` is a size_t.
unfoldable pub push : Ring → Trb → Trb → ℕ × Ring
push r rest t =
    let copied = copy_to_last r t in
    let moved = record copied { write_index = r.write_index + 1 } in
    (
      r.address + 16 * r.write_index,
      if moved.write_index == (r.buffer_count + (2 ^ 64 - 1)) % 2 ^ 64
          then wrap moved rest
          else moved,
    )

unfoldable pub initialize : Ring → ℕ → Option ℕ → Code × Ring
initialize r count none = (
  no_enough_memory,
  record r { address = 0; buffer = []; buffer_count = count; write_index = 0; cycle_bit = true },
)
initialize r count (some address) = (
  success,
  record {
    address = address;
    buffer = replicate count zero_trb;
    buffer_count = count;
    write_index = 0;
    cycle_bit = true;
  },
)

-- The registers erdp, erstba and erstsz of InterrupterRegisterSet
pub record Interrupter : Type 0 where
  pub erdp : ℕ
  pub erstba : ℕ
  pub erstsz : ℕ

-- EventRingSegmentTableEntry, at `entry_address`
pub record Segment : Type 0 where
  pub ring_segment_base_address : ℕ
  pub ring_segment_size : ℕ

pub record EventRing : Type 0 where
  pub address : ℕ
  pub buffer : List Trb
  pub buffer_count : ℕ
  pub entry : Segment
  pub interrupter : Interrupter
  pub cycle_bit : Bool

-- get_pointer and set_pointer of ERDPBitmap, set_pointer of ERSTBABitmap, set_size of ERSTSZBitmap
abbrev pub get_erdp_pointer : ℕ → ℕ
get_erdp_pointer word = word / 16 * 16

abbrev pub set_erdp_pointer : ℕ → ℕ → ℕ
set_erdp_pointer word value = value / 16 * 16 + word % 16

abbrev pub set_erstba_pointer : ℕ → ℕ → ℕ
set_erstba_pointer word value = value / 64 * 64 + word % 64

abbrev pub set_erstsz_size : ℕ → ℕ → ℕ
set_erstsz_size word value = word / 65536 * 65536 + value % 65536

abbrev pub read_dequeue_pointer : EventRing → ℕ
read_dequeue_pointer q = get_erdp_pointer q.interrupter.erdp

abbrev pub write_dequeue_pointer : EventRing → ℕ → EventRing
write_dequeue_pointer q p =
    let i = q.interrupter in
    record q { interrupter = record i { erdp = set_erdp_pointer i.erdp p } }

-- `get_front()` read: the TRB that the pointer stands at
abbrev pub get_front : EventRing → Trb
get_front q = get_or q.buffer ((read_dequeue_pointer q - q.address) / 16) zero_trb

-- `==` on bool
abbrev pub bool_eq : Bool → Bool → Bool
bool_eq true c = c
bool_eq false c = not c

unfoldable pub has_front : EventRing → Bool
has_front q = bool_eq (cycle_bit_of (get_front q)) q.cycle_bit

unfoldable pub pop : EventRing → EventRing
pop q =
    let segment_begin = q.entry.ring_segment_base_address in
    let segment_end = segment_begin + 16 * q.entry.ring_segment_size in
    let p = read_dequeue_pointer q + 16 in
    if p == segment_end
    then write_dequeue_pointer (record q { cycle_bit = not q.cycle_bit }) segment_begin
    else write_dequeue_pointer q p

abbrev pub segment_of : ℕ → ℕ → Segment
segment_of address count = record {
  ring_segment_base_address = address;
  ring_segment_size = count % 65536;
}

-- The two allocations are those of the buffer and of the table.
unfoldable pub initialize_events :
    EventRing → ℕ → Interrupter → Option ℕ → Option ℕ → Code × EventRing
initialize_events q count i none entry = (
  no_enough_memory,
  record q { address = 0; buffer = []; buffer_count = count; interrupter = i; cycle_bit = true },
)
initialize_events q count i (some address) none = (
  no_enough_memory,
  record q { address = 0; buffer = []; buffer_count = count; interrupter = i; cycle_bit = true },
)
initialize_events q count i (some address) (some entry_address) = (
  success,
  record {
    address = address;
    buffer = replicate count zero_trb;
    buffer_count = count;
    entry = segment_of address count;
    interrupter = record i {
      erdp = set_erdp_pointer i.erdp address;
      erstba = set_erstba_pointer i.erstba entry_address;
      erstsz = set_erstsz_size i.erstsz 1;
    };
    cycle_bit = true;
  },
)
