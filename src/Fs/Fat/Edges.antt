-- ===== src/Fs/Fat/Edges.antt =====
-- src/fs/drivers/fat/driver.hpp: where copy_cluster stands on the volume, and at its end.
use native.Mathlib.Nat.{div-le_of_le-mul, mul-div_right}
use klee.Base.{
  ℕ, ◌+◌, ◌-◌, ◌*◌, ◌/◌, ◌%◌, ◌^◌, ◌≤◌, ◌<◌, ◌≡◌, refl, ap, ◌∙◌, Bool, true, false, List, err,
  index_out_of_range, arith, leb,
}
use klee.Fs.Fat.{BpbSummary, Volume, cluster_begin, copy_cluster, device_io, blocksize_of}

-- The first sector of a cluster, when nothing wraps.
abbrev pub first_sector : BpbSummary → ℕ → ℕ
first_sector b cluster =
    b.reserved_sector_count + b.fat_size_32 * b.num_fats + (cluster - 2) * b.sectors_per_cluster

pub record IsCluster (v : Volume) (cluster : ℕ) : Type 0 where
  pub numbered : 2 ≤ cluster
  pub word : cluster < 2 ^ 32
  pub sectors : 0 < v.bpb.bytes_per_sector
  pub total : v.bpb.total_sectors_32 < 2 ^ 32
  pub inside : first_sector v.bpb cluster + v.bpb.sectors_per_cluster ≤ v.bpb.total_sectors_32

less_two : (c : ℕ) → 2 ≤ c → c < 2 ^ 32 → (c + (2 ^ 32 - 2)) % 2 ^ 32 ≡ c - 2
less_two c h l = omega arith

below_word : (x : ℕ) → x < 2 ^ 32 → x % 2 ^ 32 ≡ x
below_word x h = omega arith

module _ (v : Volume) (cluster : ℕ) (c : IsCluster v cluster) where
  cluster_begin-first_sector : cluster_begin v.bpb cluster ≡ first_sector v.bpb cluster
  cluster_begin-first_sector =
      let t = c.total in
      let i = c.inside in
      ap
        (λ k.
          (v.bpb.reserved_sector_count
            + v.bpb.fat_size_32 * v.bpb.num_fats
            + k * v.bpb.sectors_per_cluster)
          % 2 ^ 32)
        (less_two cluster c.numbered c.word)
      ∙ below_word (first_sector v.bpb cluster) (omega arith)

  -- A transfer inside a cluster is one of the device at the cluster's place. The cluster is not the
  -- last one of a volume that ends with it, and the place in bytes fits 32 bits.
  pub copy_cluster-device_io :
      (offset size : ℕ) (buffer : List ℕ) (write : Bool)
      → first_sector v.bpb cluster + v.bpb.sectors_per_cluster < v.bpb.total_sectors_32
      → offset + size ≤ blocksize_of v
      → first_sector v.bpb cluster * v.bpb.bytes_per_sector + offset < 2 ^ 32
      → copy_cluster v cluster offset size buffer write
        ≡ device_io v
            (first_sector v.bpb cluster * v.bpb.bytes_per_sector + offset)
            size
            buffer
            write
  unfolding copy_cluster
  copy_cluster-device_io offset size buffer write inside within fits =
      let t = c.total in
      let d : size / v.bpb.bytes_per_sector ≤ v.bpb.sectors_per_cluster =
        div-le_of_le-mul v.bpb.bytes_per_sector (omega arith) in
      let w =
        below_word (first_sector v.bpb cluster + size / v.bpb.bytes_per_sector) (omega arith) in
      let far : leb v.bpb.total_sectors_32
            (first_sector v.bpb cluster + size / v.bpb.bytes_per_sector)
          ≡ false =
        ground arith in
      rw
        (
          cluster_begin-first_sector,
          w,
          far,
          below_word (first_sector v.bpb cluster * v.bpb.bytes_per_sector + offset) fits,
        )
        refl

  -- The last cluster of a volume whose sectors end with it cannot be read or written whole: the code
  -- says that it is out of range.
  pub copy_cluster_of_last :
      (buffer : List ℕ) (write : Bool)
      → first_sector v.bpb cluster + v.bpb.sectors_per_cluster ≡ v.bpb.total_sectors_32
      → copy_cluster v cluster 0 (blocksize_of v) buffer write ≡ err index_out_of_range
  unfolding copy_cluster
  copy_cluster_of_last buffer write last =
      let t = c.total in
      let d : blocksize_of v / v.bpb.bytes_per_sector ≡ v.bpb.sectors_per_cluster =
        mul-div_right v.bpb.sectors_per_cluster c.sectors in
      let w = below_word (first_sector v.bpb cluster + v.bpb.sectors_per_cluster) (omega arith) in
      let near : leb v.bpb.total_sectors_32 (first_sector v.bpb cluster + v.bpb.sectors_per_cluster)
          ≡ true =
        ground arith in
      rw (cluster_begin-first_sector, d, w, near) refl
