-- ===== src/Fat16/File.antt =====
-- Writing files: `write_new_file`, `free_cluster_chain` and `overwrite_file` of src/fat16.rs.
pub mod Chunks
pub mod Loop
pub mod Stores
pub mod RoundTrip
pub mod NewFile
pub mod Freed
pub mod Confined
pub mod Located
pub mod Replaced
pub mod Records
pub mod Overwritten
use sil_os.Prelude.{
  ℕ, zero, suc, ◌+◌, ◌-◌, ◌*◌, ◌%◌, ◌^◌, min, Bool, ◌&&◌, ◌||◌, List, Option, none, some, ltb, leb,
  if◌then◌else◌, length, is_empty, slice, overwrite,
}
use sil_os.Fat16.{
  Bpb, DirectoryEntry, Disk, Run, ok, err, out_of_fuel, root_directory_full, disk_full,
  file_not_found, read_block, write_block, entry_bytes,
}
use sil_os.Fat16.Volume.{cluster_to_lba}
use sil_os.Fat16.Table.{get_fat_entry, set_fat_entry, find_free_cluster}
use sil_os.Fat16.Data.{write_sectors}
use sil_os.Fat16.Root.{find_empty_root_slot, find_file_location}

abbrev pub and_then : {A B : Type 0} → Run A → (A → Disk → Run B) → Run B
and_then (ok a d) k = k a d
and_then (err e d) k = err e d
and_then out_of_fuel k = out_of_fuel

-- A new cluster is marked as the end of the chain; the one before it, if any, is linked to it.
unfoldable pub link_cluster : Bpb → Option ℕ → ℕ → Disk → Disk
link_cluster b previous_cluster current_cluster d =
    let marked = set_fat_entry b current_cluster 0xFFFF d in
    elim previous_cluster [ none ↦ marked | some p ↦ set_fat_entry b p current_cluster marked ]

abbrev pub first_of_chain : Option ℕ → ℕ → ℕ → ℕ
first_of_chain none first_cluster current_cluster = current_cluster
first_of_chain (some p) first_cluster current_cluster = first_cluster

-- The loop that both writers run, over fuel: it returns `first_cluster`.
unfoldable pub write_chunks : ℕ → Bpb → List ℕ → ℕ → Option ℕ → ℕ → Disk → Run ℕ
unfolding link_cluster
write_chunks zero b data_bytes bytes_written previous_cluster first_cluster d = out_of_fuel
write_chunks (suc f) b data_bytes bytes_written previous_cluster first_cluster d =
    if ltb bytes_written (length data_bytes) || is_empty data_bytes
    then (elim (find_free_cluster b d) [
      | none ↦ err disk_full d
      | some current_cluster ↦
          let linked = link_cluster b previous_cluster current_cluster d in
          let first = first_of_chain previous_cluster first_cluster current_cluster in
          let cluster_lba = cluster_to_lba b current_cluster in
          let bytes_per_cluster = b.sectors_per_cluster * 512 in
          let chunk_size = min (length data_bytes - bytes_written) bytes_per_cluster in
          let chunk = slice data_bytes bytes_written chunk_size in
          let written = write_sectors b.sectors_per_cluster 0 cluster_lba chunk linked in
          let rest =
            write_chunks f b data_bytes (bytes_written + chunk_size) (some current_cluster) first
              written in
          if is_empty data_bytes then ok first written else rest
    ])
    else ok first_cluster d

-- The record is copied into the directory sector that is read back first.
unfoldable pub put_entry : ℕ → ℕ → DirectoryEntry → Disk → Disk
unfolding write_block
put_entry dir_lba dir_offset entry d =
    write_block dir_lba (overwrite dir_offset (entry_bytes entry) (read_block dir_lba d)) d

abbrev pub new_entry : List ℕ → List ℕ → ℕ → ℕ → DirectoryEntry
new_entry filename ext first_cluster size = record {
  filename = filename;
  extension = ext;
  attributes = 0x20;
  reserved = 0;
  creation_time_ms = 0;
  creation_time = 0;
  creation_date = 0;
  last_access_date = 0;
  cluster_high = 0;
  modified_time = 0;
  modified_date = 0;
  cluster_low = first_cluster;
  file_size = size;
}

-- With `sectors_per_cluster > 0` each round but the last writes a byte: `data.len() + 1` rounds.
unfoldable pub write_new_file : Bpb → List ℕ → List ℕ → List ℕ → Disk → Run (Unit {0})
unfolding write_chunks put_entry
write_new_file b filename ext data_bytes d = elim (find_empty_root_slot b d) [
  | none ↦ err root_directory_full d
  | some (dir_lba, dir_offset) ↦
      and_then (write_chunks (length data_bytes + 1) b data_bytes 0 none 0 d) λ first_cluster d'.
        ok tt (
          put_entry dir_lba dir_offset
            (new_entry filename ext first_cluster (length data_bytes % 2 ^ 32)) d')
]

-- `while current >= 2 && current < 0xFFF8`; `none` says that the fuel ran out.
unfoldable pub free_chain : ℕ → Bpb → ℕ → Disk → Option Disk
free_chain zero b current d = none
free_chain (suc f) b current d =
    let next_cluster = get_fat_entry b current d in
    let rest = free_chain f b next_cluster (set_fat_entry b current 0x0000 d) in
    if leb 2 current && ltb current 0xFFF8 then rest else some d

-- Every round but the last two clears a used entry, of which there are fewer than 2 ^ 16.
unfoldable pub free_cluster_chain : Bpb → ℕ → Disk → Option Disk
unfolding free_chain
free_cluster_chain b start_cluster d = free_chain (2 ^ 16 + 2) b start_cluster d

unfoldable pub overwrite_file : Bpb → List ℕ → List ℕ → List ℕ → Disk → Run (Unit {0})
unfolding write_chunks put_entry free_cluster_chain
overwrite_file b filename ext new_data d = elim (find_file_location b filename ext d) [
  | none ↦ err file_not_found d
  | some (dir_lba, dir_offset, entry) ↦
      let freed =
        if leb 2 entry.cluster_low then free_cluster_chain b entry.cluster_low d else some d in
      elim freed [
        | none ↦ out_of_fuel
        | some d1 ↦
            and_then (write_chunks (length new_data + 1) b new_data 0 none 0 d1) λ first_cluster d2.
              ok tt (
                put_entry dir_lba dir_offset
                  (record entry {
                    cluster_low = first_cluster;
                    file_size = length new_data % 2 ^ 32;
                  })
                  d2)
      ]
]
