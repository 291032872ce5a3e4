-- ===== src/Fs/Fat.antt =====
-- src/fs/drivers/fat/driver.hpp and fat.hpp: the FAT driver's walk along the clusters of a file. The
-- device is an argument. Where the source computes in 32 bits, the remainder is wrote out.
mod Tests
pub mod Chain
pub mod Reading
pub mod Edges
pub mod Entry
pub mod Directory
pub mod Resumed
pub mod Rereading
pub mod Places
use klee.Base.{
  ℕ, zero, suc, ◌+◌, ◌-◌, ◌*◌, ◌/◌, ◌%◌, ◌^◌, Bool, true, false, ◌&&◌, List, [], ◌∷◌, ◌++◌, length,
  ltb, leb, ◌==◌, if◌then◌else◌, Code, success, is_error, Result, ok, err, io_error,
  index_out_of_range, end_of_file, broken_fat_entry, take, get_or,
}

-- Handle::read and Handle::write of the volume, by position and size. A read gives the bytes that it
-- got, a write takes bytes and gives how many it wrote.
pub record Device : Type 0 where
  pub read : ℕ → ℕ → Result (List ℕ)
  pub write : ℕ → List ℕ → Result ℕ

-- BPBSummary
pub record BpbSummary : Type 0 where
  pub bytes_per_sector : ℕ
  pub reserved_sector_count : ℕ
  pub total_sectors_32 : ℕ
  pub fat_size_32 : ℕ
  pub root_cluster : ℕ
  pub sectors_per_cluster : ℕ
  pub num_fats : ℕ

pub record Volume : Type 0 where
  pub bpb : BpbSummary
  pub device : Device

pub data FatEntryType : Type 0 where
  free_entry reserved_entry used_entry bad_entry last_entry : FatEntryType

unfoldable pub get_fat_entry_type : ℕ → FatEntryType
get_fat_entry_type fate =
    if fate == 0
    then free_entry
    else if fate == 1
    then reserved_entry
    else if fate == 268435447
    then bad_entry
    else if leb 268435448 fate && leb fate 268435455
    then last_entry
    else used_entry

-- FOPData, less the type
pub record FopData : Type 0 where
  pub cluster : ℕ
  pub filesize : ℕ

pub record HandleData : Type 0 where
  pub current_cluster : ℕ
  pub current_cluster_number : ℕ

abbrev pub from_fop_data : FopData → HandleData
from_fop_data file = record { current_cluster = file.cluster; current_cluster_number = 0 }

abbrev pub got : ℕ → Result (List ℕ) → Result (List ℕ)
got size (err e) = err e
got size (ok bytes) = if length bytes == size then ok bytes else err io_error

abbrev pub wrote : ℕ → List ℕ → Result ℕ → Result (List ℕ)
wrote size buffer (err e) = err e
wrote size buffer (ok count) = if count == size then ok buffer else err io_error

-- The buffer afterwards, or the error.
unfoldable pub device_io : Volume → ℕ → ℕ → List ℕ → Bool → Result (List ℕ)
device_io v pos size buffer true = wrote size buffer (v.device.write pos (take size buffer))
device_io v pos size buffer false = got size (v.device.read pos size)

-- The first sector of a cluster.
abbrev pub cluster_begin : BpbSummary → ℕ → ℕ
cluster_begin b cluster =
    (b.reserved_sector_count
      + b.fat_size_32 * b.num_fats
      + (cluster + (2 ^ 32 - 2)) % 2 ^ 32 * b.sectors_per_cluster)
    % 2 ^ 32

unfoldable pub copy_cluster : Volume → ℕ → ℕ → ℕ → List ℕ → Bool → Result (List ℕ)
copy_cluster v cluster offset size buffer write =
    let begin = cluster_begin v.bpb cluster in
    let copy_begin = (begin * v.bpb.bytes_per_sector + offset) % 2 ^ 32 in
    if leb v.bpb.total_sectors_32 ((begin + size / v.bpb.bytes_per_sector) % 2 ^ 32)
    then err index_out_of_range
    else device_io v copy_begin size buffer write

-- A 32-bit number from its bytes, the first the lowest.
abbrev pub word_of : List ℕ → ℕ
word_of bytes =
    get_or bytes 0 0
    + 256 * get_or bytes 1 0
    + 65536 * get_or bytes 2 0
    + 16777216 * get_or bytes 3 0

-- An error with the code Success leaves the word 0 and is no error to the caller.
abbrev pub masked : Result (List ℕ) → Result ℕ
masked (err e) = if is_error e then err e else ok 0
masked (ok bytes) = ok (word_of bytes % 2 ^ 28)

unfoldable pub read_fat_entry : Volume → ℕ → Result ℕ
read_fat_entry v cluster =
    let bytes_per_sector = v.bpb.bytes_per_sector in
    let sector = v.bpb.reserved_sector_count + cluster * 4 / bytes_per_sector in
    let offset = cluster * 4 % bytes_per_sector in
    masked (device_io v (sector * bytes_per_sector + offset) 4 [] false)

abbrev pub next_by : ℕ → FatEntryType → Result ℕ
next_by fate used_entry = ok fate
next_by fate last_entry = err end_of_file
next_by fate _ = err broken_fat_entry

abbrev pub next_of : Result ℕ → Result ℕ
next_of (err e) = err e
next_of (ok fate) = next_by fate (get_fat_entry_type fate)

unfoldable pub get_next_cluster : Volume → ℕ → Result ℕ
get_next_cluster v cluster = next_of (read_fat_entry v cluster)

-- `steps` rounds of the loop of seek_cluster_chain
abbrev pub bind : Result ℕ → (ℕ → Result ℕ) → Result ℕ
bind (err e) f = err e
bind (ok c) f = f c

abbrev pub walk : Volume → ℕ → ℕ → Result ℕ
walk v zero cluster = ok cluster
walk v (suc steps) cluster = bind (get_next_cluster v cluster) (λ next. walk v steps next)

abbrev pub sought : HandleData → ℕ → Result ℕ → Code × HandleData
sought h number (err e) = (e, h)
sought h number (ok cluster) =
    (success, record { current_cluster = cluster; current_cluster_number = number })

unfoldable pub seek_cluster_chain : Volume → FopData → HandleData → ℕ → Code × HandleData
seek_cluster_chain v file h number =
    if ltb number h.current_cluster_number
    then sought h number (walk v number file.cluster)
    else sought h number (walk v (number - h.current_cluster_number) h.current_cluster)

abbrev pub blocksize_of : Volume → ℕ
blocksize_of v = v.bpb.bytes_per_sector * v.bpb.sectors_per_cluster

abbrev pub prepend : List ℕ → Result (List ℕ × HandleData) → Result (List ℕ × HandleData)
prepend bytes (err e) = err e
prepend bytes (ok (rest, h)) = ok (bytes ++ rest, h)

abbrev pub copied_block :
    Result (List ℕ) → Result (List ℕ × HandleData) → Result (List ℕ × HandleData)
copied_block (err e) rest = err e
copied_block (ok bytes) rest = prepend bytes rest

abbrev pub unless_error : Code → Result (List ℕ × HandleData) → Result (List ℕ × HandleData)
unless_error e rest = if is_error e then err e else rest

-- The loop of read, from block number `block` on. The handle is a copy, which the caller gets back
-- only when all goes well.
unfoldable pub read_blocks : Volume → FopData → HandleData → ℕ → ℕ → Result (List ℕ × HandleData)
read_blocks v file h block zero = ok ([], h)
read_blocks v file h block (suc count) =
    let (e, h') = seek_cluster_chain v file h (block % 2 ^ 32) in
    let rest = read_blocks v file h' (block + 1) count in
    unless_error e
      (copied_block (copy_cluster v h'.current_cluster 0 (blocksize_of v) [] false) rest)

abbrev pub finished :
    HandleData → ℕ → Result (List ℕ × HandleData) → Result (ℕ × List ℕ) × HandleData
finished h count (err e) = (err e, h)
finished h count (ok (bytes, h')) = (ok (count, bytes), h')

-- The number of blocks with their bytes, and the handle.
unfoldable pub read : Volume → FopData → HandleData → ℕ → ℕ → Result (ℕ × List ℕ) × HandleData
read v file h block count = finished h count (read_blocks v file h block count)
