-- ===== src/Fs/Fat/Tests.antt =====
-- Runs of src/fs/drivers/fat/driver.hpp, on a volume of twelve sectors of four bytes: one reserved, six
-- of the table, and the clusters 2 to 6. The only file has the clusters 2 and 4.
use klee.Base.{
  some, ◌%◌, ◌≢◌, ℕ, zero, suc, ◌+◌, ◌*◌, ◌≡◌, refl, false, List, [], ◌∷◌, ok, err, arith, ltb,
  ◌==◌, if◌then◌else◌, index_out_of_range, end_of_file,
}
use klee.Fs.Fat.{
  Volume, FopData, HandleData, seek_cluster_chain, get_next_cluster, read_fat_entry,
  get_fat_entry_type, read, copy_cluster, device_io, sought, walk,
}
use klee.Fs.Fat.Chain.{IsAt, seek_cluster_chain-walk}
use klee.Fs.Fat.Reading.{IsReporting, IsFailure, IsRead, read-IsRead}
use klee.Fs.Fat.Directory.{
  HandleDirectoryData, DirectoryInfo, from_start, readdir_info, examine, advance, scan, eof_cluster,
}
use klee.Fs.Fat.Entry.{calc_checksum, to_string}
use klee.Fs.Fat.Places.{
  IsPlace, Agrees, opened, reads, from_start-IsPlace, readdir_info-IsPlace, readdir_info-Agrees,
}
use klee.Fs.Fat.Edges.{IsCluster, copy_cluster-device_io, copy_cluster_of_last}

abbrev byte_at : ℕ → ℕ
byte_at i =
    if i == 12
    then 4
    else if ltb i 20
    then 0
    else if ltb i 23
    then 255
    else if i == 23
    then 15
    else i

abbrev bytes_from : ℕ → ℕ → List ℕ
bytes_from i zero = []
bytes_from i (suc count) = byte_at i ∷ bytes_from (i + 1) count

abbrev volume : Volume
volume = record {
  bpb = record {
    bytes_per_sector = 4;
    reserved_sector_count = 1;
    total_sectors_32 = 12;
    fat_size_32 = 6;
    root_cluster = 2;
    sectors_per_cluster = 1;
    num_fats = 1;
  };
  device = record { read = λ pos size. ok (bytes_from pos size); write = λ pos bytes. ok (4) };
}

abbrev file : FopData
file = record { cluster = 2; filesize = 8 }

-- The handle after the second cluster was read.
abbrev second : HandleData
second = record { current_cluster = 4; current_cluster_number = 1 }

second-IsAt : IsAt volume file second
unfolding IsAt get_next_cluster read_fat_entry device_io get_fat_entry_type
second-IsAt = refl

volume-IsReporting : IsReporting volume
unfolding IsReporting IsFailure
volume-IsReporting pos size = tt

third_cluster : (seek_cluster_chain volume file second 2).0 ≡ end_of_file
unfolding seek_cluster_chain get_next_cluster read_fat_entry device_io get_fat_entry_type
third_cluster = refl

seek_cluster_chain-walk_example :
    seek_cluster_chain volume file second 0 ≡ sought second 0 (walk volume 0 2)
seek_cluster_chain-walk_example = seek_cluster_chain-walk volume file second 0 second-IsAt

read-IsRead_example : IsRead volume file 0 2 (read volume file second 0 2)
read-IsRead_example = read-IsRead volume file second 0 2 volume-IsReporting second-IsAt

IsCluster-third : IsCluster volume 3
IsCluster-third = record {
  numbered = omega arith;
  word = omega arith;
  sectors = omega arith;
  total = omega arith;
  inside = omega arith;
}

IsCluster-last : IsCluster volume 6
IsCluster-last = record {
  numbered = omega arith;
  word = omega arith;
  sectors = omega arith;
  total = omega arith;
  inside = omega arith;
}

copy_cluster-device_io_example :
    copy_cluster volume 3 1 2 [] false ≡ device_io volume ((1 + 6 * 1 + 1 * 1) * 4 + 1) 2 [] false
copy_cluster-device_io_example =
    copy_cluster-device_io volume 3 IsCluster-third 1 2 [] false (omega arith) (omega arith)
      (omega arith)

copy_cluster_of_last_example : copy_cluster volume 6 0 4 [] false ≡ err index_out_of_range
copy_cluster_of_last_example = copy_cluster_of_last volume 6 IsCluster-last [] false refl

-- A directory of two entries, `A` and `B`, in the one cluster of a volume with sectors of 64 bytes.
abbrev directory_byte : ℕ → ℕ
directory_byte i =
    if i == 75
    then 15
    else if (if ltb i 72 then false else ltb i 75)
    then 255
    else if i == 128
    then 65
    else if i == 160
    then 66
    else if ltb (i % 32) 11
    then 32
    else 0

abbrev directory_bytes : ℕ → ℕ → List ℕ
directory_bytes i zero = []
directory_bytes i (suc count) = directory_byte i ∷ directory_bytes (i + 1) count

abbrev directory_volume : Volume
directory_volume = record {
  bpb = record {
    bytes_per_sector = 64;
    reserved_sector_count = 1;
    total_sectors_32 = 4;
    fat_size_32 = 1;
    root_cluster = 2;
    sectors_per_cluster = 1;
    num_fats = 1;
  };
  device = record { read = λ pos size. ok (directory_bytes pos size); write = λ pos bytes. ok 64 };
}

abbrev after_first : HandleDirectoryData
after_first = record { current_cluster = 2; current_index = 1; dentry_index = 1 }

abbrev first_info : DirectoryInfo
first_info = record { cluster = 0; size = 0; name = 65 ∷ []; attribute = 0 }

readdir_first :
    readdir_info 3 directory_volume 2 (from_start 2) 0 ≡ some (ok (first_info, after_first))
unfolding readdir_info scan examine advance copy_cluster device_io calc_checksum to_string
readdir_first = refl

inside : 2 ≢ eof_cluster
inside e = omega (arith, e)

readdir_info-IsPlace_example : IsPlace directory_volume 2 after_first
readdir_info-IsPlace_example =
    readdir_info-IsPlace directory_volume 2 inside 3 0 (from_start 2) after_first first_info
      (omega arith) (from_start-IsPlace directory_volume 2 inside) readdir_first

readdir_info-Agrees_example :
    (k : ℕ) × ((g : ℕ)
      → Agrees
          (readdir_info (k + g) directory_volume 2 (from_start 2) 1)
          (readdir_info g directory_volume 2 after_first 1))
readdir_info-Agrees_example =
    readdir_info-Agrees directory_volume 2 inside 1 after_first
      (reads 3 0 (from_start 2) first_info opened (omega arith) readdir_first) (omega arith)
