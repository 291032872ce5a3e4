-- ===== src/Fs/Handle.antt =====
-- src/fs/handle.hpp: handles, which refuse what they are not opened for.
pub mod Owner
use klee.Base.{
  ℕ, ◌^◌, Bool, true, false, not, Option, some, none, if◌then◌else◌, Code, success, file_not_opened,
  Result, ok, err,
}
use klee.Fs.Open.{OpenMode, Count, close}
use klee.Fs.File.{Driver, FileOperator, Copied, copy}

-- A handle of one file, less the driver's data.
pub record Handle : Type 0 where
  pub mode : OpenMode
  pub expired : Bool

abbrev pub refused : FileOperator → (ℕ → ℕ) → Copied
refused f buffer = (err file_not_opened, f.cache_provider, buffer)

unfoldable pub handle_read : Handle → Driver → FileOperator → ℕ → ℕ → (ℕ → ℕ) → Option Copied
handle_read h d f offset size buffer =
    if not h.mode.read then some (refused f buffer) else copy d f offset size buffer false

unfoldable pub handle_write : Handle → Driver → FileOperator → ℕ → ℕ → (ℕ → ℕ) → Option Copied
handle_write h d f offset size buffer =
    if not h.mode.write then some (refused f buffer) else copy d f offset size buffer true

unfoldable pub get_filesize : Handle → FileOperator → Result ℕ
get_filesize h f = if not h.mode.read then err file_not_opened else ok f.filesize

unfoldable pub get_blocksize : FileOperator → ℕ
get_blocksize f = 2 ^ f.blocksize_exp

-- `operator bool`
unfoldable pub is_open : Handle → Bool
is_open h = not h.expired

-- Handle(fop, mode)
unfoldable pub new_handle : OpenMode → Handle
new_handle mode = record { mode = mode; expired = false }

-- `close(handle)`, with the counts of the handle's file and what destroy_per_handle answers.
unfoldable pub close_handle : Handle → Code → Count → Handle × Count
close_handle h destroyed c =
    let (expired, c') = close h.expired destroyed h.mode c in (record h { expired = expired }, c')

-- `*this = std::move(o)` for two handles of one file: this handle, the other one, and the counts.
unfoldable pub move_handle : Handle → Handle → Code → Count → Handle × Handle × Count
unfolding close_handle
move_handle this o destroyed c =
    let (closed, c') = close_handle this destroyed c in
    (record closed { mode = o.mode; expired = o.expired }, record o { expired = true }, c')
