-- ===== src/Memory/Bitmap.antt =====
-- src/memory/allocator.hpp: the bitmap of BitmapMemoryManager, one bit for each frame, set when the
-- frame is taken. A read outside the array gives 0 and a write there changes nothing; the source
-- has undefined behaviour there, and `IsValid` keeps the range inside.
pub mod Laws
use klee.Base.{ℕ, zero, suc, ◌+◌, ◌*◌, ◌/◌, ◌%◌, ◌≤◌, Bool, List, get_or, set, length}
use klee.Memory.Bits.{test_bit, put_bit}

abbrev pub bytes_per_frame : ℕ
bytes_per_frame = 4 * 1024

-- 64 GiB in frames
abbrev pub required_frames : ℕ
required_frames = 64 * 1024 * 1024 * 1024 / bytes_per_frame

abbrev pub bits_per_mapline : ℕ
bits_per_mapline = 64

pub record BitmapMemoryManager : Type 0 where
  pub allocation_map : List ℕ
  pub range_begin : ℕ
  pub range_end : ℕ

unfoldable pub get_bit : BitmapMemoryManager → ℕ → Bool
get_bit m frame =
    let line_index = frame / bits_per_mapline in
    let bit_index = frame % bits_per_mapline in
    test_bit (get_or m.allocation_map line_index 0) bit_index

unfoldable pub set_bit : BitmapMemoryManager → ℕ → Bool → BitmapMemoryManager
set_bit m frame flag =
    let line_index = frame / bits_per_mapline in
    let bit_index = frame % bits_per_mapline in
    record m {
      allocation_map =
          set m.allocation_map line_index
            (put_bit (get_or m.allocation_map line_index 0) bit_index flag);
    }

-- The rounds left of the loop of set_bits, and its index.
set_bits_loop : BitmapMemoryManager → ℕ → Bool → ℕ → ℕ → BitmapMemoryManager
set_bits_loop m begin flag zero i = m
set_bits_loop m begin flag (suc rounds) i =
    set_bits_loop (set_bit m (begin + i) flag) begin flag rounds (i + 1)

unfoldable pub set_bits : BitmapMemoryManager → ℕ → ℕ → Bool → BitmapMemoryManager
unfolding set_bits_loop
set_bits m begin frames flag = set_bits_loop m begin flag frames 0

unfoldable pub set_range : BitmapMemoryManager → ℕ → ℕ → BitmapMemoryManager
set_range m begin end = record m { range_begin = begin; range_end = end }

-- Frames that the array has a bit for.
abbrev pub frames_limit : BitmapMemoryManager → ℕ
frames_limit m = length m.allocation_map * bits_per_mapline
