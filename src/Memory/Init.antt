-- ===== src/Memory/Init.antt =====
-- src/memory/allocator.hpp, memory-type.hpp and memory-map.h: the constructor of
-- BitmapMemoryManager, which marks what the firmware's memory map does not call available. What the
-- array holds before (the source does not initialise it) is an argument.
pub mod Reserved
pub mod Range
use klee.Base.{
  ℕ, ◌+◌, ◌-◌, ◌*◌, ◌/◌, ◌%◌, ◌^◌, Bool, true, false, List, [], ◌∷◌, ltb, if◌then◌else◌,
}
use klee.Memory.Bitmap.{BitmapMemoryManager, bytes_per_frame, required_frames, set_bits, set_range}

pub data MemoryType : Type 0 where
  efi_reserved_memory_type efi_loader_code efi_loader_data efi_boot_services_code
        efi_boot_services_data efi_runtime_services_code efi_runtime_services_data
        efi_conventional_memory efi_unusable_memory efi_acpi_reclaim_memory efi_acpi_memory_nvs
        efi_memory_mapped_io efi_memory_mapped_io_port_space efi_pal_code efi_persistent_memory
        efi_max_memory_type :
      MemoryType

abbrev pub is_available_memory_type : MemoryType → Bool
is_available_memory_type efi_boot_services_code = true
is_available_memory_type efi_boot_services_data = true
is_available_memory_type efi_conventional_memory = true
is_available_memory_type _ = false

-- The fields of MemoryDescriptor that the constructor reads.
pub record MemoryDescriptor : Type 0 where
  pub type : MemoryType
  pub physical_start : ℕ
  pub number_of_pages : ℕ

abbrev pub uefi_page_size : ℕ
uefi_page_size = 4096

-- `desc.physical_start + desc.number_of_pages * uefi_page_size` in 64 bits
abbrev pub physical_end : MemoryDescriptor → ℕ
physical_end d = (d.physical_start + d.number_of_pages * uefi_page_size) % 2 ^ 64

-- One round of the loop: the gap before the descriptor, then the descriptor. The number is
-- `available_end`.
mark_gap : BitmapMemoryManager → ℕ → ℕ → BitmapMemoryManager
mark_gap m available_end start =
    if ltb available_end start
    then set_bits m (available_end / bytes_per_frame) ((start - available_end) / bytes_per_frame)
        true
    else m

unfoldable pub mark : MemoryDescriptor → BitmapMemoryManager × ℕ → BitmapMemoryManager × ℕ
unfolding mark_gap
mark d (m, available_end) =
    let m' = mark_gap m available_end d.physical_start in
    if is_available_memory_type d.type then (m', physical_end d) else (
      set_bits m' (d.physical_start / bytes_per_frame)
          (d.number_of_pages * uefi_page_size / bytes_per_frame) true,
      available_end,
    )

unfoldable pub mark_all : List MemoryDescriptor → BitmapMemoryManager × ℕ → BitmapMemoryManager × ℕ
mark_all [] s = s
mark_all (d ∷ ds) s = mark_all ds (mark d s)

-- The manager before the loop: the array as it was, and the range that the members start with.
abbrev pub blank : List ℕ → BitmapMemoryManager
blank allocation_map = record {
  allocation_map = allocation_map;
  range_begin = 0;
  range_end = required_frames;
}

-- The constructor, over the descriptors in the order of the map.
unfoldable pub new_manager : List ℕ → List MemoryDescriptor → BitmapMemoryManager
unfolding mark_all mark
new_manager allocation_map ds =
    let (m, available_end) = mark_all ds (blank allocation_map, 0) in
    set_range m 1 (available_end / bytes_per_frame)
