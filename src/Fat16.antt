-- ===== src/Fat16.antt =====
-- FAT16 volume (src/fat16.rs): the boot-sector record, the directory record, the disk as the
-- filesystem sees it (one 512-byte sector at each LBA) and the outcome of an operation on it.
pub mod Volume
pub mod Table
pub mod Data
pub mod Root
pub mod Mount
pub mod File
pub mod Sound
use sil_os.Prelude.{
  ℕ, ◌+◌, ◌≡◌, refl, Bool, List, [], ◌∷◌, ◌++◌, u16_bytes, u32_bytes, u16_from_le, u32_from_le,
  get_or, take, drop, slice, ◌==◌, if◌then◌else◌, length,
}

pub record Bpb : Type 0 where
  pub jump : List ℕ
  pub oem_name : List ℕ
  pub bytes_per_sector : ℕ
  pub sectors_per_cluster : ℕ
  pub reserved_sectors : ℕ
  pub fat_count : ℕ
  pub root_entries : ℕ
  pub total_sectors_16 : ℕ
  pub media_type : ℕ
  pub sectors_per_fat : ℕ

pub record DirectoryEntry : Type 0 where
  pub filename : List ℕ
  pub extension : List ℕ
  pub attributes : ℕ
  pub reserved : ℕ
  pub creation_time_ms : ℕ
  pub creation_time : ℕ
  pub creation_date : ℕ
  pub last_access_date : ℕ
  pub cluster_high : ℕ
  pub modified_time : ℕ
  pub modified_date : ℕ
  pub cluster_low : ℕ
  pub file_size : ℕ

abbrev pub Sector : Type 0
Sector = List ℕ

-- What the drive promises: `read_sector` gives what `write_sector_bytes` last put at that LBA.
abbrev pub Disk : Type 0
Disk = ℕ → Sector

abbrev pub read_block : ℕ → Disk → Sector
read_block lba d = d lba

unfoldable pub write_block : ℕ → Sector → Disk → Disk
write_block lba bytes d l = if l == lba then bytes else d l

-- Every sector holds 512 bytes.
abbrev pub IsDisk : Disk → Type 0
IsDisk d = (l : ℕ) → length (d l) ≡ 512

pub data FsError : Type 0 where
  root_directory_full disk_full file_not_found : FsError

-- The outcome of an operation that changes the disk. An error keeps the changes made so far.
pub data Run (A : Type 0) : Type 0 where
  ok : A → Disk → Run A
  err : FsError → Disk → Run A
  out_of_fuel : Run A

-- The bytes of a record behind the two names.
abbrev pub entry_fields : DirectoryEntry → List ℕ
entry_fields e =
    e.attributes ∷ e.reserved ∷ e.creation_time_ms ∷ u16_bytes e.creation_time
    ++ (u16_bytes e.creation_date
        ++ (u16_bytes e.last_access_date
            ++ (u16_bytes e.cluster_high
                ++ (u16_bytes e.modified_time
                    ++ (u16_bytes e.modified_date
                        ++ (u16_bytes e.cluster_low ++ u32_bytes e.file_size))))))

-- The packed layout of `DirectoryEntry`, 32 bytes.
unfoldable pub entry_bytes : DirectoryEntry → List ℕ
entry_bytes e = e.filename ++ (e.extension ++ entry_fields e)

-- The record that the bytes behind the two names hold.
pub entry_of : List ℕ → List ℕ → List ℕ → DirectoryEntry
entry_of name ext r = record {
  filename = name;
  extension = ext;
  attributes = get_or r 0 0;
  reserved = get_or r 1 0;
  creation_time_ms = get_or r 2 0;
  creation_time = u16_from_le (get_or r 3 0) (get_or r 4 0);
  creation_date = u16_from_le (get_or r 5 0) (get_or r 6 0);
  last_access_date = u16_from_le (get_or r 7 0) (get_or r 8 0);
  cluster_high = u16_from_le (get_or r 9 0) (get_or r 10 0);
  modified_time = u16_from_le (get_or r 11 0) (get_or r 12 0);
  modified_date = u16_from_le (get_or r 13 0) (get_or r 14 0);
  cluster_low = u16_from_le (get_or r 15 0) (get_or r 16 0);
  file_size = u32_from_le (get_or r 17 0) (get_or r 18 0) (get_or r 19 0) (get_or r 20 0);
}

-- `core::ptr::read(buffer[offset..].as_ptr() as *const DirectoryEntry)`
unfoldable pub read_entry : Sector → ℕ → DirectoryEntry
unfolding entry_of
read_entry buffer offset =
    let r = drop offset buffer in entry_of (take 8 r) (slice r 8 3) (drop 11 r)
