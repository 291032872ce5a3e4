-- ===== src/Memory/Allocator.antt =====
-- src/memory/allocator.hpp: the public operations of BitmapMemoryManager. Each returns the manager
-- that it leaves beside its result. The loop of `allocate` runs on fuel, and is given one round for
-- each frame of the range and one more; `none` means that it ran out.
pub mod First
pub mod Single
pub mod Restore
use klee.Base.{
  ℕ, zero, suc, ◌+◌, ◌-◌, ◌*◌, ◌/◌, ◌%◌, ◌^◌, Bool, true, false, not, Option, none, some, ltb, ◌==◌,
  if◌then◌else◌, Code, success, no_enough_memory, Result, ok, err,
}
use klee.Memory.Bitmap.{BitmapMemoryManager, bytes_per_frame, get_bit, set_bit, set_bits}

-- `start_frame_id + i`, the frames that may be given out, and the first of them that stops the run.
pub data Probe : Type 0 where
  beyond : Probe
  taken : ℕ → Probe
  clear : Probe

-- The `for` loop of allocate, from index `i` with `rounds` frames left to look at.
unfoldable pub probe : BitmapMemoryManager → ℕ → ℕ → ℕ → Probe
probe m start zero i = clear
probe m start (suc rounds) i =
    if ltb m.range_end (start + i)
    then beyond
    else if get_bit m (start + i)
    then taken i
    else probe m start rounds (i + 1)

-- The `goto loop` of allocate: the start of the run found, or `some none` at the end of the range.
search_run : BitmapMemoryManager → ℕ → ℕ → ℕ → Option (Option ℕ)
search_run m frames zero start = none
search_run m frames (suc fuel) start = elim (probe m start frames 0) [
  | beyond ↦ some none
  | taken i ↦ search_run m frames fuel (start + (i + 1))
  | clear ↦ some (some start)
]

-- SmartFrameId owns `frames` frames from `id`; SmartSingleFrameID owns one.
pub record SmartFrameId : Type 0 where
  pub id : ℕ
  pub frames : ℕ

-- std::numeric_limits<size_t>::max()
abbrev pub nullframe : ℕ
nullframe = 2 ^ 64 - 1

finish : BitmapMemoryManager → ℕ → Option ℕ → Result SmartFrameId × BitmapMemoryManager
finish m frames none = (err no_enough_memory, m)
finish m frames (some start) =
    (ok (record { id = start; frames = frames }), set_bits m start frames true)

unfoldable pub allocate :
    BitmapMemoryManager → ℕ → Option (Result SmartFrameId × BitmapMemoryManager)
unfolding probe search_run finish
allocate m frames = elim (search_run m frames (m.range_end + 2 - m.range_begin) m.range_begin) [
  | none ↦ none
  | some r ↦ some (finish m frames r)
]

-- The loop of allocate_single, from frame `i` with `rounds` frames left to look at.
single_loop : BitmapMemoryManager → ℕ → ℕ → Result ℕ × BitmapMemoryManager
single_loop m zero i = (err no_enough_memory, m)
single_loop m (suc rounds) i =
    if not (get_bit m i) then (ok i, set_bit m i true) else single_loop m rounds (i + 1)

unfoldable pub allocate_single : BitmapMemoryManager → Result ℕ × BitmapMemoryManager
unfolding single_loop
allocate_single m = single_loop m (m.range_end + 1 - m.range_begin) m.range_begin

unfoldable pub deallocate : BitmapMemoryManager → ℕ → ℕ → Code × BitmapMemoryManager
deallocate m begin frames = (success, set_bits m begin frames false)

-- is_available at an address, and at a frame
pub is_available_address : BitmapMemoryManager → ℕ → Bool
is_available_address m address = let frame = address / bytes_per_frame in not (get_bit m frame)

pub is_available : BitmapMemoryManager → ℕ → Bool
is_available m frame = not (get_bit m frame)

-- SmartFrameId::free: the handle and the manager after it. The `fatal_assert` on the result of
-- deallocate cannot fire, since that is always Success.
unfoldable pub free : SmartFrameId → BitmapMemoryManager → SmartFrameId × BitmapMemoryManager
unfolding deallocate
free s m =
    if s.id == nullframe
    then (s, m)
    else (record s { id = nullframe }, (deallocate m s.id s.frames).1)

-- SmartFrameId::operator=(SmartFrameId&&): this handle, the other one, and the manager after it.
unfoldable pub move_assign :
    SmartFrameId
    → SmartFrameId
    → BitmapMemoryManager
    → SmartFrameId × SmartFrameId × BitmapMemoryManager
unfolding free
move_assign this o m =
    let (freed, m') = free this m in
    (record { id = o.id; frames = o.frames }, record o { id = freed.id }, m')

abbrev pub heap_frames : ℕ
heap_frames = 64 * 512

-- The program break and its end, which the C library's sbrk reads.
pub record ProgramBreak : Type 0 where
  pub program_break : ℕ
  pub program_break_end : ℕ

-- initialize_heap: the handle and the program break, or the error of allocate.
unfoldable pub initialize_heap :
    BitmapMemoryManager → Option (Result (SmartFrameId × ProgramBreak) × BitmapMemoryManager)
unfolding allocate
initialize_heap m = elim (allocate m heap_frames) [
  | none ↦ none
  | some (ok s, m') ↦ some (
    ok (
      s,
      record {
        program_break = s.id * bytes_per_frame;
        program_break_end = s.id * bytes_per_frame + heap_frames * bytes_per_frame;
      },
    ),
    m',
  )
  | some (err e, m') ↦ some (err e, m')
]
