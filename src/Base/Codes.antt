-- ===== src/Base/Codes.antt =====
-- src/error.hpp: the error codes, the test `operator bool` of Error, and Result<T>.

use mathlib.Core.Bool.{Bool, true, false}

pub data Code : Type 0 where
  success full empty no_enough_memory index_out_of_range host_controller_not_halted invalid_slot_id
        port_not_connected invalid_endpoint_number transfer_ring_not_set already_allocated
        not_supported not_implemented invalid_descriptor buffer_too_small unknown_device
        no_corresponding_setup_stage transfer_failed invalid_phase unknown_xhci_speed_id no_waiter
        no_pci_msi no_such_task bad_checksum entry_not_set invalid_nice no_such_event
        unfinished_event aliving_thread dead_thread no_such_process no_such_thread io_error
        invalid_data invalid_size invalid_sector not_directory not_file no_such_file
        unknown_filesystem file_exists file_opened file_not_opened invalid_open_mode volume_mounted
        volume_busy not_mounted already_mounted end_of_file not_fat broken_fat_entry
        invalid_device_type invalid_device_operation not_mbr not_gpt unsupported_gpt
        virtio_legacy_device virtio_device_not_ready virtio_operation_out_of_order
        virtio_display_info virtio_create_resource virtio_attach_backing virtio_process_event
        virtio_unknown_event virtio_worker_exit not_elf invalid_elf :
      Code

-- `Error::operator bool`: any code but Success.
abbrev pub is_error : Code → Bool
is_error success = false
is_error _ = true

-- The variant of a value and an error code.
pub data Result {ℓ} (A : Type ℓ) : Type ℓ where
  ok : A → Result A
  err : Code → Result A
