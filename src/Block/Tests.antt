-- ===== src/Block/Tests.antt =====
-- Runs of src/block/gpt.hpp: a disk of blocks of 512 bytes with two partitions, in block 2.
use klee.Base.{ℕ, zero, suc, ◌+◌, ◌≡◌, refl, List, [], ◌∷◌, ok, some, arith, ◌==◌, if◌then◌else◌}
use klee.Block.Gpt.{BlockDevice, find_partitions, partition_at}
use klee.Block.Gpt.Aliased.{IsPartitioned, find_partitions_first_only}

-- The table says that it has 128 entries of 128 bytes. Each of the first two has type 1.
abbrev byte_at : ℕ → ℕ
byte_at i =
    if i == 450
    then 238
    else if i == 510
    then 85
    else if i == 511
    then 170
    else if i == 512
    then 69
    else if i == 513
    then 70
    else if i == 514
    then 73
    else if i == 515
    then 32
    else if i == 516
    then 80
    else if i == 517
    then 65
    else if i == 518
    then 82
    else if i == 519
    then 84
    else if i == 584
    then 2
    else if i == 592
    then 128
    else if i == 596
    then 128
    else if i == 1024
    then 1
    else if i == 1056
    then 34
    else if i == 1064
    then 99
    else if i == 1152
    then 1
    else 0

abbrev bytes_from : ℕ → ℕ → List ℕ
bytes_from i zero = []
bytes_from i (suc count) = byte_at i ∷ bytes_from (i + 1) count

abbrev disk : BlockDevice
disk = record { blocksize = 512; read = λ pos size. ok (bytes_from pos size) }

abbrev header : List ℕ
header = bytes_from 512 512

abbrev table : List ℕ
table = bytes_from 1024 512

disk-IsPartitioned : IsPartitioned disk (bytes_from 0 512) header table 2
disk-IsPartitioned = record {
  block_zero = refl;
  mbr_signature = refl;
  protective = refl;
  block_one = refl;
  signature = refl;
  size = refl;
  placed = refl;
  below = omega arith;
  blocks = omega arith;
  first_block = refl;
}

find_partitions_first_only_example : find_partitions 2 (ok disk) ≡ some (ok (partition_at table 0))
find_partitions_first_only_example =
    find_partitions_first_only disk (bytes_from 0 512) header table 2 disk-IsPartitioned 0
      (omega arith) refl
