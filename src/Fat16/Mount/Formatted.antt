-- ===== src/Fat16/Mount/Formatted.antt =====
-- What formatting leaves on the disk.
use sil_os.Prelude.{
  ℕ, zero, suc, ◌+◌, ◌≡◌, refl, inl, inr, List, none, some, arith, tests, ◌==◌, Bool-cases, length,
}
use sil_os.Fat16.{Sector, Disk, IsDisk, write_block}
use sil_os.Fat16.Volume.{IsGeometry}
use sil_os.Fat16.Data.{zero_sector}
use sil_os.Fat16.Data.Sectors.{length-zero_sector}
use sil_os.Fat16.Table.{get_fat_entry, find_free_cluster}
use sil_os.Fat16.Root.{find_file}
use sil_os.Fat16.File.Chunks.{IsVolume}
use sil_os.Fat16.Mount.{
  init, format_bpb, boot_sector, fat_sector, format_range, format_fats, format_drive,
}

length-boot_sector : length boot_sector ≡ 512
unfolding boot_sector
length-boot_sector = refl

-- After `format_drive`, `init` mounts the volume with the very geometry that was formatted.
pub init-format_drive : (d : Disk) → init (format_drive d) ≡ some format_bpb
unfolding init format_drive
init-format_drive d = refl

-- The first cluster that a formatted volume gives out is the first one there is.
pub find_free_cluster-format_drive :
    (d : Disk) → find_free_cluster format_bpb (format_drive d) ≡ some 2
unfolding find_free_cluster format_drive
find_free_cluster-format_drive d = refl

-- No name is found on a formatted volume.
pub find_file-format_drive :
    (d : Disk) (name ext : List ℕ) → find_file format_bpb name ext (format_drive d) ≡ none
unfolding find_file format_drive
find_file-format_drive d name ext = refl

write_block-IsDisk :
    (lba : ℕ) (s : Sector) (d : Disk) → length s ≡ 512 → IsDisk d → IsDisk (write_block lba s d)
unfolding write_block
write_block-IsDisk lba s d e h l = ground (arith, h l)

format_range-IsDisk :
    (sector : ℕ → Sector) (n offset start : ℕ) (d : Disk)
    → ((i : ℕ) → length (sector i) ≡ 512)
    → IsDisk d
    → IsDisk (format_range sector n offset start d)
unfolding format_range
format_range-IsDisk sector zero offset start d e h = h
format_range-IsDisk sector (suc n) offset start d e h =
    format_range-IsDisk sector n (offset + 1) start _ e
      (write_block-IsDisk (start + offset) (sector offset) d (e offset) h)

length-fat_sector : (i : ℕ) → length (fat_sector i) ≡ 512
unfolding fat_sector
length-fat_sector zero = refl
length-fat_sector (suc i) = elim (Bool-cases (suc i == 0)) [
  | inl z ↦ absurd (omega tests)
  | inr nz ↦ rw nz
]

format_fats-IsDisk : (n idx start : ℕ) (d : Disk) → IsDisk d → IsDisk (format_fats n idx start d)
unfolding format_fats
format_fats-IsDisk zero idx start d h = h
format_fats-IsDisk (suc n) idx start d h =
    format_fats-IsDisk n (idx + 1) start _
      (format_range-IsDisk fat_sector 64 0 _ d length-fat_sector h)

format_drive-IsDisk : (d : Disk) → IsDisk d → IsDisk (format_drive d)
unfolding format_drive
format_drive-IsDisk d h =
    format_range-IsDisk (λ _. zero_sector) 32 0 129 _ (λ i. length-zero_sector)
      (format_fats-IsDisk 2 0 1 _ (write_block-IsDisk 0 boot_sector d length-boot_sector h))

format-IsGeometry : IsGeometry format_bpb
format-IsGeometry = record {
  sector = refl;
  cluster_pos = omega arith;
  cluster_byte = omega arith;
  reserved_word = omega arith;
  fat_pos = omega arith;
  fat_byte = omega arith;
  fat_size = omega arith;
  root_word = omega arith;
}

pub entry_0 : (d : Disk) → get_fat_entry format_bpb 0 (format_drive d) ≡ 0xFFF8
unfolding get_fat_entry format_drive
entry_0 d = refl

pub entry_1 : (d : Disk) → get_fat_entry format_bpb 1 (format_drive d) ≡ 0xFFFF
unfolding get_fat_entry format_drive
entry_1 d = refl

-- Formatting any disk of 512-byte sectors makes a volume: the geometry is consistent and the two
-- reserved entries of the table are used.
pub format_drive-IsVolume : (d : Disk) → IsDisk d → IsVolume format_bpb (format_drive d)
format_drive-IsVolume d h = record {
  geometry = format-IsGeometry;
  disk = format_drive-IsDisk d h;
  entry_0 = omega (arith, entry_0 d);
  entry_1 = omega (arith, entry_1 d);
}
