-- ===== src/Fs/Tests.antt =====
-- Runs of src/fs: handles of one file, and reads through its cache.
use klee.Base.{
  ℕ, ◌+◌, ◌*◌, ◌%◌, ◌^◌, ◌≡◌, refl, true, false, [], ◌∷◌, some, arith, ltb, if◌then◌else◌,
  file_opened, ok, ◌==◌,
}
use klee.Fs.Cache.{Transfer, copy_pages}
use klee.Fs.Cache.Move.{IsCopied}
use klee.Fs.Cache.Flat.{copy_pages-IsCopied}
use klee.Fs.Open.{OpenMode, single, Attributes, try_open, Count}
use klee.Fs.Open.Counts.{Opened}
use klee.Fs.Handle.{Handle}
use klee.Fs.Tmp.{Disk, file, directory, regular_type, create, remove}
use klee.Fs.Tmp.Entries.{Creates, Removes, create-Creates, remove-Removes}
use klee.Fs.File.{uninitialized, Driver, FileOperator, Copied, copy}
use klee.Fs.File.Prepare.{IsReading, IsCoherent}
use klee.Fs.File.Reads.{ReadsFile, copy-ReadsFile}

abbrev rw_mode : OpenMode
rw_mode = record { read = true; write = true }

abbrev default_attributes : Attributes
default_attributes = record { read_level = single; write_level = single; exclusive = true }

abbrev no_handle : Opened
no_handle = record { counts = record { read_count = 0; write_count = 0 }; handles = [] }

abbrev one_handle : Opened
one_handle = record { counts = record { read_count = 1; write_count = 1 }; handles = rw_mode ∷ [] }

-- A second handle of any mode is refused.
try_open-one_handle : (try_open default_attributes one_handle.counts rw_mode).0 ≡ file_opened
unfolding try_open
try_open-one_handle = refl

-- A file of 5000 bytes in blocks of 512, byte `i` of which is `i % 256`.
abbrev bytes : ℕ → ℕ
bytes i = i % 256

abbrev disk : Driver
disk = record {
  read = λ block count buffer.
      (ok count, λ i. if ltb i (count * 2 ^ 9) then bytes (block * 2 ^ 9 + i) else buffer i);
  write = λ block count buffer. ok count;
  allocate_single = λ p. ok λ i. 0;
}

abbrev small_file : FileOperator
small_file = record {
  filesize = 5000;
  blocksize_exp = 9;
  cache = true;
  cache_provider = record { capacity = 0; states = λ p. uninitialized; frames = λ p i. 0 };
}

abbrev zeros : ℕ → ℕ
zeros i = 0

IsReading-disk : IsReading disk 9 bytes
IsReading-disk = record {
  block_bytes = λ block count buffer k i e lt. ground (arith, lt);
  read_fails = λ block count buffer e. cc;
  allocation_fails = λ p e. cc;
}

IsCoherent-small_file : IsCoherent 5000 bytes small_file.cache_provider
IsCoherent-small_file = record { page_bytes = λ p i h lt below. absurd (cc) }

copy_pages-IsCopied_example :
    (t : Transfer) × (copy_pages true 4000 200 (λ p i. 0) bytes ≡ some t)
    × IsCopied true 4000 200 (λ p i. 0) bytes t
copy_pages-IsCopied_example = copy_pages-IsCopied true 4000 200 (λ p i. 0) bytes

copy-ReadsFile_example :
    (x : Copied) × (copy disk small_file 4000 200 zeros false ≡ some x)
    × IsCoherent 5000 bytes x.1
    × ReadsFile disk small_file bytes (omega arith) IsReading-disk 4000 200 zeros x
copy-ReadsFile_example =
    copy-ReadsFile disk small_file bytes 4000 200 zeros (omega arith) IsReading-disk refl
      IsCoherent-small_file (omega arith) (omega arith)

-- A root directory, number 0, that has one file, named 7.
abbrev root_disk : Disk
root_disk = record {
  objects = λ t. if t == 0 then directory (47 ∷ []) ((7 ∷ [], 1) ∷ []) else file (7 ∷ []) 0;
  next_object = 2;
}

create-Creates_example :
    Creates root_disk 0 (8 ∷ []) regular_type (create root_disk 0 (8 ∷ []) regular_type)
create-Creates_example =
    create-Creates root_disk 0 (8 ∷ []) (47 ∷ []) regular_type ((7 ∷ [], 1) ∷ []) refl (omega arith)

remove-Removes_example : Removes root_disk 0 (7 ∷ []) (remove root_disk 0 (7 ∷ []))
remove-Removes_example = remove-Removes root_disk 0 (7 ∷ []) (47 ∷ []) ((7 ∷ [], 1) ∷ []) refl

abbrev open_handle : Handle
open_handle = record { mode = rw_mode; expired = false }

abbrev read_handle : Handle
read_handle = record { mode = record { read = true; write = false }; expired = false }

abbrev three_readers : Count
three_readers = record { read_count = 3; write_count = 1 }
