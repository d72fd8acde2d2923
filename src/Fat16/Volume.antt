-- ===== src/Fat16/Volume.antt =====
-- The geometry of a volume: where the table, the root directory and the clusters lie
-- (`cluster_to_lba` of src/fat16.rs). Arithmetic wraps as in a release build.
use sil_os.Prelude.{ℕ, ◌+◌, ◌-◌, ◌*◌, ◌/◌, ◌%◌, ◌^◌, ◌≤◌, ◌<◌, ◌≡◌, ◌≢◌, arith}
use native.Mathlib.Nat.{mul-le-mul}
use sil_os.Fat16.{Bpb}

unfoldable pub cluster_to_lba : Bpb → ℕ → ℕ
cluster_to_lba b cluster =
    let root_dir_sectors =
      ((b.root_entries * 32) % 2 ^ 16 + (b.bytes_per_sector - 1)) % 2 ^ 16 / b.bytes_per_sector in
    let first_data_sector =
      b.reserved_sectors + b.fat_count * b.sectors_per_fat + root_dir_sectors in
    (first_data_sector + (cluster + 2 ^ 32 - 2) % 2 ^ 32 * b.sectors_per_cluster) % 2 ^ 32

abbrev pub root_dir_start : Bpb → ℕ
root_dir_start b = b.reserved_sectors + b.fat_count * b.sectors_per_fat

abbrev pub root_dir_sectors : Bpb → ℕ
root_dir_sectors b = (b.root_entries * 32 + 511) / 512

abbrev pub first_data_sector : Bpb → ℕ
first_data_sector b = root_dir_start b + root_dir_sectors b

-- A boot record that the arithmetic of the filesystem is meant for: no operation overflows, and
-- every entry of the table is the number of a cluster below the end-of-chain marks.
pub record IsGeometry (b : Bpb) : Type 0 where
  pub sector : b.bytes_per_sector ≡ 512
  pub cluster_pos : 0 < b.sectors_per_cluster
  pub cluster_byte : b.sectors_per_cluster < 256
  pub reserved_word : b.reserved_sectors < 2 ^ 16
  pub fat_pos : 0 < b.fat_count
  pub fat_byte : b.fat_count < 256
  pub fat_size : b.sectors_per_fat ≤ 255
  pub root_word : b.root_entries * 32 + 511 < 2 ^ 16

-- The number of entries in the table.
abbrev pub entries : Bpb → ℕ
entries b = b.sectors_per_fat * 256

-- Where the cluster `c` begins.
abbrev pub cluster_start : Bpb → ℕ → ℕ
cluster_start b c = first_data_sector b + (c - 2) * b.sectors_per_cluster

mul_bound : (m n m' n' : ℕ) → m ≤ m' → n ≤ n' → m * n ≤ m' * n'
mul_bound m n m' n' h k = mul-le-mul h k

module _ (b : Bpb) (g : IsGeometry b) where
  pub cluster_start_bound :
      (c : ℕ) → c < 2 ^ 16 → cluster_start b c + b.sectors_per_cluster < 2 ^ 26
  cluster_start_bound c small = omega (
    arith,
    mul_bound b.fat_count b.sectors_per_fat 255 255 (omega arith) g.fat_size,
    mul_bound (c - 2) b.sectors_per_cluster 65535 255 (omega arith) (omega arith),
  )

  -- The table of the first copy ends before the root directory.
  pub table_before_root : b.reserved_sectors + b.sectors_per_fat ≤ root_dir_start b
  table_before_root = grind arith

  -- Distinct clusters have distinct sectors.
  pub clusters_apart :
      (c c' : ℕ)
      → c ≤ c'
      → c ≢ c'
      → 2 ≤ c
      → cluster_start b c + b.sectors_per_cluster ≤ cluster_start b c'
  clusters_apart c c' le ne two = omega (
    arith,
    mul_bound (c - 2 + 1) b.sectors_per_cluster (c' - 2) b.sectors_per_cluster (omega arith)
        (omega arith),
  )

  -- `cluster_to_lba` finds the cluster, and nothing wraps.
  pub cluster_to_lba_lem : (c : ℕ) → 2 ≤ c → c < 2 ^ 16 → cluster_to_lba b c ≡ cluster_start b c
  unfolding cluster_to_lba
  cluster_to_lba_lem c two small =
      let w : (c + 2 ^ 32 - 2) % 2 ^ 32 ≡ c - 2 = omega arith in
      let r : (b.root_entries * 32 % 2 ^ 16 + (512 - 1)) % 2 ^ 16 / 512 ≡ root_dir_sectors b =
        omega arith in
      rw (g.sector, w, r) (omega (arith, cluster_start_bound c small))
