-- ===== src/Fat16/Mount.antt =====
-- Mounting and formatting: `init` and `format_drive` of src/fat16.rs.
pub mod Formatted
pub mod Clean
use sil_os.Prelude.{
  ℕ, zero, suc, ◌+◌, ◌*◌, ◌/◌, ◌%◌, ◌^◌, List, [], ◌∷◌, Option, none, some, ◌==◌, if◌then◌else◌,
  slice, get_or, set, overwrite, u16_from_le, u16_bytes,
}
use sil_os.Fat16.{Bpb, Sector, Disk, read_block, write_block}
use sil_os.Fat16.Data.{zero_sector}

-- `core::ptr::read(buffer.as_ptr() as *const Bpb)` of the packed record.
unfoldable pub bpb_of : Sector → Bpb
bpb_of buffer = record {
  jump = slice buffer 0 3;
  oem_name = slice buffer 3 8;
  bytes_per_sector = u16_from_le (get_or buffer 11 0) (get_or buffer 12 0);
  sectors_per_cluster = get_or buffer 13 0;
  reserved_sectors = u16_from_le (get_or buffer 14 0) (get_or buffer 15 0);
  fat_count = get_or buffer 16 0;
  root_entries = u16_from_le (get_or buffer 17 0) (get_or buffer 18 0);
  total_sectors_16 = u16_from_le (get_or buffer 19 0) (get_or buffer 20 0);
  media_type = get_or buffer 21 0;
  sectors_per_fat = u16_from_le (get_or buffer 22 0) (get_or buffer 23 0);
}

-- What `init` leaves in `FS`.
unfoldable pub init : Disk → Option Bpb
unfolding bpb_of
init d = let bpb = bpb_of (read_block 0 d) in if bpb.bytes_per_sector == 512 then some bpb else none

-- The constants of `format_drive`.
abbrev pub format_bpb : Bpb
format_bpb = record {
  jump = 0xEB ∷ 0x3C ∷ 0x90 ∷ [];
  oem_name = b'm' ∷ b'y' ∷ b'O' ∷ b'S' ∷ b' ' ∷ b' ' ∷ b' ' ∷ b' ' ∷ [];
  bytes_per_sector = 512;
  sectors_per_cluster = 4;
  reserved_sectors = 1;
  fat_count = 2;
  root_entries = 512;
  total_sectors_16 = 65535;
  media_type = 0xF8;
  sectors_per_fat = 64;
}

unfoldable pub boot_sector : Sector
unfolding zero_sector
boot_sector =
    let b = format_bpb in
    let s = overwrite 3 b.oem_name (overwrite 0 b.jump zero_sector) in
    let s = set (overwrite 11 (u16_bytes b.bytes_per_sector) s) 13 b.sectors_per_cluster in
    let s = set (overwrite 14 (u16_bytes b.reserved_sectors) s) 16 b.fat_count in
    let s =
      overwrite 19 (u16_bytes b.total_sectors_16) (overwrite 17 (u16_bytes b.root_entries) s) in
    let s = overwrite 22 (u16_bytes b.sectors_per_fat) (set s 21 b.media_type) in
    set (set s 510 0x55) 511 0xAA

-- The sector of a table at `offset`.
unfoldable pub fat_sector : ℕ → Sector
unfolding zero_sector
fat_sector offset =
    if offset == 0
    then set (set (set (set zero_sector 0 format_bpb.media_type) 1 0xFF) 2 0xFF) 3 0xFF
    else zero_sector

-- `for offset in 0..n`: one write for each round.
unfoldable pub format_range : (ℕ → Sector) → ℕ → ℕ → ℕ → Disk → Disk
unfolding write_block
format_range sector zero offset start d = d
format_range sector (suc n) offset start d =
    format_range sector n (offset + 1) start (write_block (start + offset) (sector offset) d)

-- `for fat_idx in 0..fat_count`
unfoldable pub format_fats : ℕ → ℕ → ℕ → Disk → Disk
format_fats zero fat_idx fat_start_lba d = d
format_fats (suc n) fat_idx fat_start_lba d =
    let current_fat_start = fat_start_lba + fat_idx * format_bpb.sectors_per_fat in
    format_fats n (fat_idx + 1) fat_start_lba
      (format_range fat_sector format_bpb.sectors_per_fat 0 current_fat_start d)

-- The write of the flush command changes no sector.
unfoldable pub format_drive : Disk → Disk
unfolding boot_sector fat_sector format_range format_fats
format_drive d =
    let booted = write_block 0 boot_sector d in
    let fats = format_fats format_bpb.fat_count 0 format_bpb.reserved_sectors booted in
    let root_dir_start =
      format_bpb.reserved_sectors + format_bpb.fat_count * format_bpb.sectors_per_fat in
    let root_dir_sectors = ((format_bpb.root_entries * 32) % 2 ^ 16 + 511) % 2 ^ 16 / 512 in
    format_range (λ _. zero_sector) root_dir_sectors 0 root_dir_start fats
