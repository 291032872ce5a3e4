-- ===== src/Block/Gpt/Aliased.antt =====
-- src/block/gpt.hpp: what is found on a disk whose table is in order.
use native.Mathlib.Nat.{zero-mod, zero-div}
use klee.Base.{
  ℕ, suc, ◌+◌, ◌/◌, ◌%◌, ◌^◌, ◌<◌, ◌≡◌, refl, ap, ◌∙◌, true, List, [], some, arith, lt→ltb,
  le→ltb_false, ◌==◌, ==_ne, if◌then◌else◌, ok, append_nil,
}
use klee.Block.Gpt.{
  BlockDevice, read_block, is_mbr, mbr_type, signature_of, efi_part, bytes_eq, entry_size,
  entry_array_lba, num_entries, partition_at, lba_of, loaded, minus_one, to_int, followed,
  unless_failed, bytes_of, scan_entries, scan_table, scan_disk, find_partitions,
}

-- The blocks of a disk with a table, whose entries start at block `lba`.
pub record IsPartitioned (d : BlockDevice) (mbr header table : List ℕ) (lba : ℕ) : Type 0 where
  pub block_zero : read_block d 0 ≡ ok mbr
  pub mbr_signature : is_mbr mbr ≡ true
  pub protective : mbr_type mbr ≡ 238
  pub block_one : read_block d 1 ≡ ok header
  pub signature : bytes_eq (signature_of header) efi_part ≡ true
  pub size : entry_size header ≡ 128
  pub placed : entry_array_lba header ≡ lba
  pub below : lba < 2 ^ 63
  pub blocks : 0 < d.blocksize
  pub first_block : read_block d lba ≡ ok table

end_at_zero :
    (fuel : ℕ) (d : BlockDevice) (b : List ℕ) (l i : ℕ)
    → num_entries b ≡ 0
    → scan_entries (suc fuel) d b l i ≡ some (ok [])
unfolding scan_entries
end_at_zero fuel d b l i z = rw (z, le→ltb_false i 0 (omega arith)) refl

below_word : (x : ℕ) → x < 2 ^ 63 → (x + 0) % 2 ^ 64 ≡ x
below_word x h = omega arith

scan_disk-scan_table :
    (fuel : ℕ) (d : BlockDevice) (b : List ℕ)
    → is_mbr b ≡ true
    → mbr_type b ≡ 238
    → scan_disk fuel d (ok b) ≡ scan_table fuel d (read_block d 1)
scan_disk-scan_table fuel d b h k = rw (h, k) refl

scan_table-scan_entries :
    (fuel : ℕ) (d : BlockDevice) (b : List ℕ)
    → bytes_eq (signature_of b) efi_part ≡ true
    → entry_size b ≡ 128
    → scan_table fuel d (ok b) ≡ scan_entries fuel d b minus_one 0
scan_table-scan_entries fuel d b h k = rw (h, k) refl

module _ (d : BlockDevice) (mbr header table : List ℕ) (lba : ℕ)
    (v : IsPartitioned d mbr header table lba) where
  lba_first : lba_of d header 0 ≡ lba
  lba_first =
      ap (λ x. (x + 0 / d.blocksize) % 2 ^ 64) v.placed
      ∙ ap (λ x. (lba + x) % 2 ^ 64) (zero-div d.blocksize)
      ∙ below_word lba v.below

  loaded_first : loaded d header minus_one lba ≡ ok table
  loaded_first =
      let l = v.below in rw (==_ne minus_one lba (λ e. absurd (omega (arith, e)))) v.first_block

  entries_first :
      (fuel : ℕ)
      → 0 < num_entries header
      → num_entries table ≡ 0
      → scan_entries (suc (suc fuel)) d header minus_one 0 ≡ some (ok (partition_at table 0))
  unfolding scan_entries
  entries_first fuel n z =
      let l = ap (loaded d header minus_one) lba_first ∙ loaded_first in
      let next =
        end_at_zero fuel d table
          (if minus_one == lba_of d header 0 then minus_one else to_int (lba_of d header 0)) 1 z in
      ap
        (λ b.
          if b
          then unless_failed (loaded d header minus_one (lba_of d header 0)) (
              followed
                (partition_at (bytes_of (loaded d header minus_one (lba_of d header 0)))
                  (0 % d.blocksize))
                (scan_entries (suc fuel) d
                  (bytes_of (loaded d header minus_one (lba_of d header 0)))
                  (if minus_one == lba_of d header 0 then minus_one else to_int (lba_of d header 0))
                  1))
          else some (ok []))
        (lt→ltb 0 (num_entries header) n)
      ∙ ap
          (λ r. unless_failed r (
            followed (partition_at (bytes_of r) (0 % d.blocksize)) (
              scan_entries (suc fuel) d (bytes_of r)
                (if minus_one == lba_of d header 0 then minus_one else to_int (lba_of d header 0))
                1)))
          l
      ∙ ap (followed (partition_at table (0 % d.blocksize))) next
      ∙ ap (λ ps. some (ok ps)) (append_nil (partition_at table (0 % d.blocksize)))
      ∙ ap (λ o. some (ok (partition_at table o))) (zero-mod d.blocksize)

  -- On a disk with a protective MBR and a table, whose first block of entries has zeros where the header
  -- has its number of entries, which is where the first partition's name has its characters 12 and 13,
  -- find_partitions gives the first entry, if it is used, and no other, for every number above 0 in the
  -- header: the block with the entries has replaced the header in the buffer. The entries have 128
  -- bytes and start below block 2 ^ 63.
  pub find_partitions_first_only :
      (fuel : ℕ)
      → 0 < num_entries header
      → num_entries table ≡ 0
      → find_partitions (suc (suc fuel)) (ok d) ≡ some (ok (partition_at table 0))
  unfolding find_partitions
  find_partitions_first_only fuel n z =
      ap (scan_disk (suc (suc fuel)) d) v.block_zero
      ∙ scan_disk-scan_table (suc (suc fuel)) d mbr v.mbr_signature v.protective
      ∙ ap (scan_table (suc (suc fuel)) d) v.block_one
      ∙ scan_table-scan_entries (suc (suc fuel)) d header v.signature v.size
      ∙ entries_first fuel n z
