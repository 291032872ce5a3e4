-- ===== src/Block/Gpt.antt =====
-- src/block/gpt.hpp: the search for partitions. The opened device is an argument. The buffer is the
-- list of its bytes; the table's header is a view of it, so that it changes with each block that is
-- read.
pub mod Aliased
use klee.Base.{
  ℕ, zero, suc, ◌+◌, ◌-◌, ◌*◌, ◌/◌, ◌%◌, ◌^◌, Bool, true, false, not, ◌&&◌, ◌||◌, List, [], ◌∷◌,
  ◌++◌, Option, none, some, get_or, length, ltb, ◌==◌, if◌then◌else◌, Code, Result, ok, err,
  io_error, not_mbr, not_gpt, unsupported_gpt,
}

-- Handle::read and Handle::get_blocksize of the device. A read gives the bytes that it got.
pub record BlockDevice : Type 0 where
  pub blocksize : ℕ
  pub read : ℕ → ℕ → Result (List ℕ)

abbrev pub byte : List ℕ → ℕ → ℕ
byte b i = get_or b i 0

abbrev pub word32 : List ℕ → ℕ → ℕ
word32 b i = byte b i + 256 * byte b (i + 1) + 65536 * byte b (i + 2) + 16777216 * byte b (i + 3)

abbrev pub word64 : List ℕ → ℕ → ℕ
word64 b i = word32 b i + 4294967296 * word32 b (i + 4)

abbrev pub bytes_at : List ℕ → ℕ → ℕ → List ℕ
bytes_at b i zero = []
bytes_at b i (suc n) = byte b i ∷ bytes_at b (i + 1) n

abbrev pub bytes_eq : List ℕ → List ℕ → Bool
bytes_eq [] [] = true
bytes_eq [] (c ∷ cs) = false
bytes_eq (b ∷ bs) [] = false
bytes_eq (b ∷ bs) (c ∷ cs) = (b == c) && bytes_eq bs cs

abbrev pub zeros : ℕ → List ℕ
zeros zero = []
zeros (suc n) = 0 ∷ zeros n

-- partition_type::esp, as its bytes
abbrev pub esp : List ℕ
esp = 40 ∷ 115 ∷ 42 ∷ 193 ∷ 31 ∷ 248 ∷ 210 ∷ 17 ∷ 186 ∷ 75 ∷ 0 ∷ 160 ∷ 201 ∷ 62 ∷ 201 ∷ 59 ∷ []

-- `EFI PART`
abbrev pub efi_part : List ℕ
efi_part = 69 ∷ 70 ∷ 73 ∷ 32 ∷ 80 ∷ 65 ∷ 82 ∷ 84 ∷ []

-- MBR: its signature, and the type of its first partition
abbrev pub is_mbr : List ℕ → Bool
is_mbr b = (byte b 510 == 85) && (byte b 511 == 170)

abbrev pub mbr_type : List ℕ → ℕ
mbr_type b = byte b 450

-- PartitionTableHeader
abbrev pub signature_of : List ℕ → List ℕ
signature_of b = bytes_at b 0 8

abbrev pub entry_array_lba : List ℕ → ℕ
entry_array_lba b = word64 b 72

abbrev pub num_entries : List ℕ → ℕ
num_entries b = word32 b 80

abbrev pub entry_size : List ℕ → ℕ
entry_size b = word32 b 84

pub data Filesystem : Type 0 where
  unknown fat32 : Filesystem

pub record Partition : Type 0 where
  pub lba_start : ℕ
  pub lba_last : ℕ
  pub filesystem : Filesystem

abbrev pub checked : ℕ → Result (List ℕ) → Result (List ℕ)
checked size (err e) = err e
checked size (ok bytes) = if length bytes == size then ok bytes else err io_error

abbrev pub read_block : BlockDevice → ℕ → Result (List ℕ)
read_block d block = checked d.blocksize (d.read (block * d.blocksize % 2 ^ 64) d.blocksize)

-- The entry at `offset` of the buffer, unless it is unused.
abbrev pub partition_at : List ℕ → ℕ → List Partition
partition_at b offset =
    let type = bytes_at b offset 16 in
    let found : Partition = record {
      lba_start = word64 b (offset + 32);
      lba_last = word64 b (offset + 40);
      filesystem = if bytes_eq type esp then fat32 else unknown;
    } in
    if bytes_eq type (zeros 16) then [] else found ∷ []

-- `buffer_lba` is an int, which is compared with 64 bits.
abbrev pub to_int : ℕ → ℕ
to_int lba = if ltb (lba % 2 ^ 32) (2 ^ 31) then lba % 2 ^ 32 else lba % 2 ^ 32 + (2 ^ 64 - 2 ^ 32)

abbrev pub minus_one : ℕ
minus_one = 2 ^ 64 - 1

abbrev pub lba_of : BlockDevice → List ℕ → ℕ → ℕ
lba_of d buffer i = (entry_array_lba buffer + 128 * i / d.blocksize) % 2 ^ 64

-- The buffer and `buffer_lba` for entry `i`.
abbrev pub loaded : BlockDevice → List ℕ → ℕ → ℕ → Result (List ℕ)
loaded d buffer buffer_lba lba = if buffer_lba == lba then ok buffer else read_block d lba

abbrev pub followed :
    List Partition → Option (Result (List Partition)) → Option (Result (List Partition))
followed found none = none
followed found (some (err e)) = some (err e)
followed found (some (ok rest)) = some (ok (found ++ rest))

abbrev pub bytes_of : Result (List ℕ) → List ℕ
bytes_of (err e) = []
bytes_of (ok b) = b

abbrev pub unless_failed :
    Result (List ℕ) → Option (Result (List Partition)) → Option (Result (List Partition))
unless_failed (err e) rest = some (err e)
unless_failed (ok b) rest = rest

-- The loop from entry `i` on. Nothing when the fuel does not suffice.
unfoldable pub scan_entries : ℕ → BlockDevice → List ℕ → ℕ → ℕ → Option (Result (List Partition))
scan_entries zero d buffer buffer_lba i = none
scan_entries (suc fuel) d buffer buffer_lba i =
    let lba = lba_of d buffer i in
    let read = loaded d buffer buffer_lba lba in
    let buffer' = bytes_of read in
    let lba' = if buffer_lba == lba then buffer_lba else to_int lba in
    let rest = scan_entries fuel d buffer' lba' (i + 1) in
    if ltb i (num_entries buffer)
    then unless_failed read (followed (partition_at buffer' (128 * i % d.blocksize)) rest)
    else some (ok [])

abbrev pub scan_table : ℕ → BlockDevice → Result (List ℕ) → Option (Result (List Partition))
scan_table fuel d (err e) = some (err e)
scan_table fuel d (ok b) =
    if not (bytes_eq (signature_of b) efi_part)
    then some (err not_gpt)
    else if not (entry_size b == 128)
    then some (err unsupported_gpt)
    else scan_entries fuel d b minus_one 0

abbrev pub scan_disk : ℕ → BlockDevice → Result (List ℕ) → Option (Result (List Partition))
scan_disk fuel d (err e) = some (err e)
scan_disk fuel d (ok b) =
    if not (is_mbr b)
    then some (err not_mbr)
    else if not (mbr_type b == 238)
    then some (err not_gpt)
    else scan_table fuel d (read_block d 1)

unfoldable pub find_partitions : ℕ → Result BlockDevice → Option (Result (List Partition))
find_partitions fuel (err e) = some (err e)
find_partitions fuel (ok d) = scan_disk fuel d (read_block d 0)
