-- ===== src/Fat16/Table.antt =====
-- The file allocation table: `get_fat_entry`, `set_fat_entry` and `find_free_cluster` of
-- src/fat16.rs. Sectors hold 512 bytes, so no index of a buffer is out of range.
pub mod Entries
pub mod Free
pub mod Closed
use sil_os.Prelude.{
  ℕ, zero, suc, ◌+◌, ◌*◌, ◌/◌, ◌%◌, ◌^◌, Option, none, some, ◌==◌, if◌then◌else◌, u16_from_le,
  low_byte, high_byte, get_or, set,
}
use sil_os.Fat16.{Bpb, Sector, Disk, read_block, write_block}

-- The 16-bit word at byte `i` of a sector.
abbrev pub word_at : Sector → ℕ → ℕ
word_at buffer i = u16_from_le (get_or buffer i 0) (get_or buffer (i + 1) 0)

unfoldable pub get_fat_entry : Bpb → ℕ → Disk → ℕ
get_fat_entry b cluster d =
    let fat_offset = cluster * 2 in
    let fat_sector = b.reserved_sectors + fat_offset / 512 in
    let ent_offset = fat_offset % 512 in word_at (read_block fat_sector d) ent_offset

unfoldable pub set_fat_entry : Bpb → ℕ → ℕ → Disk → Disk
set_fat_entry b cluster next_cluster d =
    let fat_offset = cluster * 2 in
    let fat_sector_lba = b.reserved_sectors + fat_offset / 512 in
    let byte_offset = fat_offset % 512 in
    let buffer = read_block fat_sector_lba d in
    write_block fat_sector_lba
      (set (set buffer byte_offset (low_byte next_cluster)) (byte_offset + 1)
        (high_byte next_cluster))
      d

-- `for i in (0..512).step_by(2)`: the first `i` whose word is 0, over the rounds that are left.
unfoldable pub scan_sector : ℕ → ℕ → Sector → Option ℕ
scan_sector zero i buffer = none
scan_sector (suc n) i buffer =
    let rest = scan_sector n (i + 2) buffer in if word_at buffer i == 0 then some i else rest

-- `for s in 0..self.bpb.sectors_per_fat`
unfoldable pub scan_fat : ℕ → ℕ → ℕ → Disk → Option ℕ
unfolding scan_sector
scan_fat zero s fat_start d = none
scan_fat (suc n) s fat_start d =
    let rest = scan_fat n (s + 1) fat_start d in
    elim (scan_sector 256 0 (read_block (fat_start + s) d)) [
      | none ↦ rest
      | some i ↦ some ((s * 256 + i / 2) % 2 ^ 16)
    ]

unfoldable pub find_free_cluster : Bpb → Disk → Option ℕ
unfolding scan_fat
find_free_cluster b d = scan_fat b.sectors_per_fat 0 b.reserved_sectors d
