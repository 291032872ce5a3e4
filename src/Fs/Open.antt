-- ===== src/Fs/Open.antt =====
-- src/fs/handle.hpp and src/fs/manager.hpp: the counts of a file's open handles.
pub mod Levels
pub mod Counts
use klee.Base.{
  ℕ, zero, suc, ◌+◌, ◌-◌, ◌%◌, ◌^◌, Bool, true, false, not, ◌&&◌, ◌==◌, if◌then◌else◌, Code,
  success, is_error, invalid_open_mode, file_opened,
}

pub record OpenMode : Type 0 where
  pub read : Bool
  pub write : Bool

pub data OpenLevel : Type 0 where
  block single multi : OpenLevel

pub record Attributes : Type 0 where
  pub read_level : OpenLevel
  pub write_level : OpenLevel
  pub exclusive : Bool

-- uint32_t counts
pub record Count : Type 0 where
  pub read_count : ℕ
  pub write_count : ℕ

-- One `switch` of try_open: the level, whether the file is exclusive, the count of the same kind and
-- the count of the other kind.
abbrev pub check_level : OpenLevel → Bool → ℕ → ℕ → Code
check_level block exclusive same other = invalid_open_mode
check_level single exclusive same other =
    if not (same == 0)
    then file_opened
    else if exclusive && not (other == 0)
    then file_opened
    else success
check_level multi exclusive same other =
    if exclusive && not (other == 0) then file_opened else success

abbrev pub add_count : Bool → ℕ → ℕ
add_count wanted n = if wanted then (n + 1) % 2 ^ 32 else n

unfoldable pub try_open : Attributes → Count → OpenMode → Code × Count
try_open a c mode =
    let for_read = check_level a.read_level a.exclusive c.read_count c.write_count in
    let for_write = check_level a.write_level a.exclusive c.write_count c.read_count in
    if mode.read && is_error for_read
    then (for_read, c)
    else if mode.write && is_error for_write
    then (for_write, c)
    else (
      success,
      record {
        read_count = add_count mode.read c.read_count;
        write_count = add_count mode.write c.write_count;
      },
    )

abbrev pub remove_count : Bool → ℕ → ℕ
remove_count held n = if held then (2 ^ 32 + n - 1) % 2 ^ 32 else n

-- The part of Manager::close that counts, with the handle's flag `expired` and what the driver
-- answers to destroy_per_handle: the flag and the counts after it.
unfoldable pub close : Bool → Code → OpenMode → Count → Bool × Count
close expired destroyed mode c =
    if expired then (true, c) else if is_error destroyed then (true, c) else (
      true,
      record {
        read_count = remove_count mode.read c.read_count;
        write_count = remove_count mode.write c.write_count;
      },
    )
