-- ===== src/Fat16/Data.antt =====
-- The data area: the sector loops of `read_file` and of the two writers, and
-- `read_file` of src/fat16.rs. Arithmetic wraps as in a release build; the lemmas below stay where
-- nothing wraps.
pub mod Sectors
pub mod Chain
pub mod Files
use sil_os.Prelude.{
  ℕ, zero, suc, ◌+◌, ◌-◌, ◌*◌, ◌/◌, ◌%◌, ◌^◌, min, List, [], ◌++◌, Option, none, some, ◌==◌, ltb,
  leb, if◌then◌else◌, length, take, slice, overwrite, replicate,
}
use sil_os.Fat16.{Bpb, DirectoryEntry, Sector, Disk, read_block, write_block}
use sil_os.Fat16.Volume.{cluster_to_lba}
use sil_os.Fat16.Table.{get_fat_entry}

-- The two variables of the loops of `read_file`.
pub record Reading : Type 0 where
  pub file_data : List ℕ
  pub bytes_remaining : ℕ

abbrev pub reading : List ℕ → ℕ → Reading
reading out rem = record { file_data = out; bytes_remaining = rem }

-- One sector: copy `min(bytes_remaining, 512)` bytes of it.
abbrev pub read_step : Sector → Reading → Reading
read_step sector r =
    let to_copy = min r.bytes_remaining 512 in
    record {
      file_data = r.file_data ++ take to_copy sector;
      bytes_remaining = r.bytes_remaining - to_copy;
    }

-- `for i in 0..self.bpb.sectors_per_cluster`, over the rounds that are left.
unfoldable pub read_sectors : ℕ → ℕ → ℕ → Disk → Reading → Reading
read_sectors zero i lba d r = r
read_sectors (suc n) i lba d r =
    let next = read_step (read_block ((lba + i) % 2 ^ 32) d) r in
    let rest = read_sectors n (i + 1) lba d next in if next.bytes_remaining == 0 then next else rest

-- `while current_cluster < 0xFFF8`; `none` says that the fuel ran out.
unfoldable pub read_clusters : ℕ → Bpb → ℕ → Disk → Reading → Option (List ℕ)
read_clusters zero b current_cluster d r = none
read_clusters (suc f) b current_cluster d r =
    let r' = read_sectors b.sectors_per_cluster 0 (cluster_to_lba b current_cluster) d r in
    let rest = read_clusters f b (get_fat_entry b current_cluster d) d r' in
    if ltb current_cluster 0xFFF8
    then (if r'.bytes_remaining == 0 then some r'.file_data else rest)
    else some r.file_data

-- Behind the allocation of `file_data`, which succeeds here. Each round reads a byte or ends the loop,
-- so `file_size + 1` rounds are enough.
unfoldable pub read_file : Bpb → DirectoryEntry → Disk → Option (List ℕ)
unfolding read_clusters read_sectors
read_file b entry d =
    read_clusters (entry.file_size + 1) b entry.cluster_low d
      (record { file_data = []; bytes_remaining = entry.file_size })

-- What a caller of `read_file` sees.
pub data FileRead : Type 0 where
  file_bytes : List ℕ → FileRead
  allocation_panics : FileRead
  reads_on : FileRead

abbrev pub file_read : Option (List ℕ) → FileRead
file_read none = reads_on
file_read (some bytes) = file_bytes bytes

-- `read_file` where the heap's largest free block has `room` bytes: `Vec::with_capacity(file_size)`
-- panics if that is too few.
unfoldable pub read_file_within : ℕ → Bpb → DirectoryEntry → Disk → FileRead
unfolding read_file
read_file_within room b entry d =
    if ltb room entry.file_size then allocation_panics else file_read (read_file b entry d)

-- `[0u8; 512]`
unfoldable pub zero_sector : Sector
zero_sector = replicate 512 0

-- A zero sector with the chunk's bytes from `sector_start` copied to its front.
unfoldable pub sector_buffer : List ℕ → ℕ → Sector
sector_buffer chunk sector_start =
    let copy_len = min 512 (length chunk - sector_start) in
    overwrite 0 (slice chunk sector_start copy_len) zero_sector

-- `for sector_idx in 0..self.bpb.sectors_per_cluster as u32`
unfoldable pub write_sectors : ℕ → ℕ → ℕ → List ℕ → Disk → Disk
unfolding sector_buffer write_block
write_sectors zero sector_idx cluster_lba chunk d = d
write_sectors (suc n) sector_idx cluster_lba chunk d =
    let sector_start = sector_idx * 512 in
    let buffer = sector_buffer chunk sector_start in
    let rest =
      write_sectors n (sector_idx + 1) cluster_lba chunk
        (write_block ((cluster_lba + sector_idx) % 2 ^ 32) buffer d) in
    if leb (length chunk) sector_start then d else rest
