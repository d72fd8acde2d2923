-- ===== src/Fat16/Root.antt =====
-- The root directory: `find_empty_root_slot`, `find_file_location` and `find_file` of
-- src/fat16.rs. A sector of it holds 16 records of 32 bytes.
pub mod Slots
pub mod Sectors
pub mod Lookup
use sil_os.Prelude.{
  ℕ, zero, suc, ◌+◌, ◌*◌, ◌/◌, ◌%◌, ◌^◌, Bool, ◌&&◌, ◌||◌, List, Option, none, some, ◌==◌,
  same_bytes, if◌then◌else◌, get_or, slice,
}
use sil_os.Fat16.{Bpb, DirectoryEntry, Sector, Disk, read_block, read_entry}
use sil_os.Fat16.Volume.{root_dir_start}

-- `((self.bpb.root_entries * 32) + 511) / 512` in 16 bits.
abbrev pub root_sectors_16 : Bpb → ℕ
root_sectors_16 b = ((b.root_entries * 32) % 2 ^ 16 + 511) % 2 ^ 16 / 512

-- `for i in 0..16`: the offset of the first record that is free.
unfoldable pub empty_slot : ℕ → ℕ → Sector → Option ℕ
empty_slot zero i buffer = none
empty_slot (suc n) i buffer =
    let offset = i * 32 in
    let first_byte = get_or buffer offset 0 in
    let rest = empty_slot n (i + 1) buffer in
    if first_byte == 0x00 || first_byte == 0xE5 then some offset else rest

-- `for sector_offset in 0..root_dir_sectors as u32`
unfoldable pub empty_slot_from : ℕ → ℕ → ℕ → Disk → Option (ℕ × ℕ)
empty_slot_from zero sector_offset start d = none
empty_slot_from (suc n) sector_offset start d =
    let lba = start + sector_offset in
    let rest = empty_slot_from n (sector_offset + 1) start d in
    elim (empty_slot 16 0 (read_block lba d)) [ none ↦ rest | some offset ↦ some (lba, offset) ]

unfoldable pub find_empty_root_slot : Bpb → Disk → Option (ℕ × ℕ)
unfolding empty_slot_from empty_slot
find_empty_root_slot b d = empty_slot_from (root_sectors_16 b) 0 (root_dir_start b) d

-- What the search of one sector ends with: the end mark (`return None`), a match, or neither.
pub data Search : Type 0 where
  end_mark : Search
  found : ℕ → DirectoryEntry → Search
  not_here : Search

-- `is_match`
abbrev pub is_match : List ℕ → List ℕ → Sector → ℕ → Bool
is_match filename ext buffer offset =
    same_bytes (slice buffer offset 8) filename && same_bytes (slice buffer (offset + 8) 3) ext

unfoldable pub search_sector : List ℕ → List ℕ → ℕ → ℕ → Sector → Search
unfolding read_entry
search_sector filename ext zero i buffer = not_here
search_sector filename ext (suc n) i buffer =
    let offset = i * 32 in
    let first_byte = get_or buffer offset 0 in
    let rest = search_sector filename ext n (i + 1) buffer in
    if first_byte == 0x00
    then end_mark
    else if first_byte == 0xE5
    then rest
    else if is_match filename ext buffer offset
    then found offset (read_entry buffer offset)
    else rest

unfoldable pub search_root : List ℕ → List ℕ → ℕ → ℕ → ℕ → Disk → Option (ℕ × ℕ × DirectoryEntry)
search_root filename ext zero sector_offset start d = none
search_root filename ext (suc n) sector_offset start d =
    let lba = start + sector_offset in
    let rest = search_root filename ext n (sector_offset + 1) start d in
    elim (search_sector filename ext 16 0 (read_block lba d)) [
      | end_mark ↦ none
      | found offset entry ↦ some (lba, offset, entry)
      | not_here ↦ rest
    ]

unfoldable pub find_file_location : Bpb → List ℕ → List ℕ → Disk → Option (ℕ × ℕ × DirectoryEntry)
unfolding search_root search_sector
find_file_location b filename ext d =
    search_root filename ext (root_sectors_16 b) 0 (root_dir_start b) d

-- `find_file` has a copy of the same loops, which returns the record alone. `some` is what the code
-- returns from within the inner loop.
unfoldable pub search_sector_entry :
    List ℕ → List ℕ → ℕ → ℕ → Sector → Option (Option DirectoryEntry)
unfolding read_entry
search_sector_entry filename ext zero i buffer = none
search_sector_entry filename ext (suc n) i buffer =
    let offset = i * 32 in
    let first_byte = get_or buffer offset 0 in
    let rest = search_sector_entry filename ext n (i + 1) buffer in
    if first_byte == 0x00
    then some none
    else if first_byte == 0xE5
    then rest
    else if same_bytes (slice buffer offset 8) filename
        && same_bytes (slice buffer (offset + 8) 3) ext
    then some (some (read_entry buffer offset))
    else rest

unfoldable pub search_root_entry : List ℕ → List ℕ → ℕ → ℕ → ℕ → Disk → Option DirectoryEntry
search_root_entry filename ext zero sector_offset start d = none
search_root_entry filename ext (suc n) sector_offset start d =
    let rest = search_root_entry filename ext n (sector_offset + 1) start d in
    elim (search_sector_entry filename ext 16 0 (read_block (start + sector_offset) d)) [
      | some returned ↦ returned
      | none ↦ rest
    ]

unfoldable pub find_file : Bpb → List ℕ → List ℕ → Disk → Option DirectoryEntry
unfolding search_root_entry search_sector_entry
find_file b filename ext d =
    search_root_entry filename ext (root_sectors_16 b) 0 (root_dir_start b) d
