-- ===== src/Memory/Tests.antt =====
-- Runs of the allocator on small bitmaps, and the allocator's theorems at such inputs.
use klee.Base.{
  ◌≤◌, ◌<◌, ◌≡◌, refl, true, List, [], ◌∷◌, some, arith, ok, err, no_enough_memory, ◌⊎◌, ◌+◌,
}
use klee.Memory.Bits.{put_bit, test_bit}
use klee.Memory.Bitmap.{BitmapMemoryManager, get_bit, set_bit, set_bits, set_range}
use klee.Memory.Allocator.{SmartFrameId, allocate, allocate_single}
use klee.Memory.Allocator.First.{AllocatesFirst, allocate_first}
use klee.Memory.Allocator.Restore.{RestoredAfter, free-allocate}
use klee.Memory.Init.{
  MemoryDescriptor, efi_conventional_memory, efi_reserved_memory_type, new_manager,
}
use klee.Memory.Init.Reserved.{new_manager-reserved, allocate-reserved}

-- Frames 1, 2, 4 and 7 are taken, and the range is 1 to 9.
abbrev some_taken : BitmapMemoryManager
some_taken = record { allocation_map = 0b10010110 ∷ []; range_begin = 1; range_end = 9 }

abbrev two_frames : SmartFrameId
two_frames = record { id = 5; frames = 2 }

abbrev both_taken : BitmapMemoryManager
both_taken = record { allocation_map = 0b11110110 ∷ []; range_begin = 1; range_end = 9 }

abbrev full_map : BitmapMemoryManager
full_map = record { allocation_map = 0b111110 ∷ []; range_begin = 1; range_end = 5 }

allocate_two : allocate some_taken 2 ≡ some (ok two_frames, both_taken)
unfolding allocate get_bit test_bit set_bits set_bit put_bit
allocate_two = refl

allocate_full : allocate full_map 1 ≡ some (err no_enough_memory, full_map)
unfolding allocate get_bit test_bit set_bits set_bit put_bit
allocate_full = refl

allocate_single_three : (allocate_single some_taken).0 ≡ ok 3
unfolding allocate_single get_bit test_bit set_bit
allocate_single_three = refl

allocate_first_example : AllocatesFirst some_taken 2 (allocate some_taken 2)
allocate_first_example = allocate_first some_taken 2 (omega arith)

free-allocate_example : RestoredAfter some_taken 2 two_frames both_taken 5
unfolding allocate get_bit test_bit set_bits set_bit put_bit
free-allocate_example =
    free-allocate some_taken 2 two_frames both_taken 5 (omega arith) (omega arith) refl

-- One page of reserved memory at frame 2, and available memory around it.
abbrev low_memory : MemoryDescriptor
low_memory = record { type = efi_conventional_memory; physical_start = 0x1000; number_of_pages = 1 }

abbrev hole : MemoryDescriptor
hole = record { type = efi_reserved_memory_type; physical_start = 0x2000; number_of_pages = 1 }

abbrev high_memory : MemoryDescriptor
high_memory = record {
  type = efi_conventional_memory;
  physical_start = 0x3000;
  number_of_pages = 2;
}

abbrev memory_map : List MemoryDescriptor
memory_map = low_memory ∷ hole ∷ high_memory ∷ []

abbrev constructed : BitmapMemoryManager
constructed = record { allocation_map = 0b101 ∷ []; range_begin = 1; range_end = 5 }

new_manager_map : new_manager (0 ∷ []) memory_map ≡ constructed
unfolding new_manager set_bits set_bit put_bit set_range
new_manager_map = refl

new_manager-reserved_example : get_bit (new_manager (0 ∷ []) memory_map) 2 ≡ true
new_manager-reserved_example =
    new_manager-reserved (0 ∷ []) (low_memory ∷ []) (high_memory ∷ []) hole 2 (omega arith) refl
      (omega arith)

allocate-constructed :
    allocate (new_manager (0 ∷ []) memory_map) 2
    ≡ some
        (ok (record { id = 3; frames = 2 }), record constructed { allocation_map = 0b11101 ∷ [] })
unfolding allocate new_manager get_bit test_bit set_bits set_bit put_bit set_range
allocate-constructed = refl

allocate-reserved_example : (2 < 3) ⊎ (3 + 2 ≤ 2)
unfolding new_manager set_bits set_bit put_bit set_range
allocate-reserved_example =
    allocate-reserved (0 ∷ []) (low_memory ∷ []) (high_memory ∷ []) hole 2 2
      (record { id = 3; frames = 2 }) (record constructed { allocation_map = 0b11101 ∷ [] })
      (omega arith) refl (omega arith) (omega arith) allocate-constructed
