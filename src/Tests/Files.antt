-- ===== src/Tests/Files.antt =====
-- Files on a formatted disk (src/fat16.rs).
use sil_os.Prelude.{ℕ, suc, Option, ◌≡◌, refl, List, [], ◌∷◌, some, none, arith}
use mathlib.Core.Option
use sil_os.Fat16.{DirectoryEntry, Disk, Run, ok, entry_bytes}
use sil_os.Fat16.Volume.{cluster_to_lba}
use sil_os.Fat16.Table.{get_fat_entry, set_fat_entry, find_free_cluster}
use sil_os.Fat16.Table.Entries.{set_fat_entry-IsDisk}
use sil_os.Fat16.Table.Free.{IsFirstFree, find_free_cluster-IsFirstFree}
use sil_os.Fat16.Data.{zero_sector, write_sectors}
use sil_os.Fat16.Data.Sectors.{length-zero_sector}
use sil_os.Fat16.Data.Files.{Chain, last}
use sil_os.Fat16.Root.{find_empty_root_slot, find_file, find_file_location}
use sil_os.Fat16.Root.Lookup.{entry_at, find_file-location}
use sil_os.Fat16.File.{new_entry, write_new_file, free_cluster_chain}
use sil_os.Fat16.File.Freed.{Freed, free_cluster_chain-Freed}
use sil_os.Fat16.File.Chunks.{IsVolume}
use sil_os.Fat16.File.Loop.{Ends}
use sil_os.Fat16.File.RoundTrip.{IsFile, Refused}
use sil_os.Fat16.File.NewFile.{write_new_file-IsFile, write_new_file-Chain}
use sil_os.Fat16.Mount.{format_bpb, format_drive}
use sil_os.Fat16.Mount.Formatted.{
  format_drive-IsVolume, find_file-format_drive, find_free_cluster-format_drive,
}

abbrev pub blank : Disk
blank _ = zero_sector

abbrev pub formatted : Disk
formatted = format_drive blank

pub formatted-IsVolume : IsVolume format_bpb formatted
formatted-IsVolume = format_drive-IsVolume blank (λ l. length-zero_sector)

abbrev pub notes_name : List ℕ
notes_name = b'N' ∷ b'O' ∷ b'T' ∷ b'E' ∷ b'S' ∷ b' ' ∷ b' ' ∷ b' ' ∷ []

abbrev pub txt : List ℕ
txt = b'T' ∷ b'X' ∷ b'T' ∷ []

abbrev pub hello : List ℕ
hello = b'h' ∷ b'i' ∷ []

write_new_file-IsFile_example :
    Ends
      (λ _ d'. IsFile format_bpb notes_name txt hello d')
      (Refused format_bpb formatted)
      (write_new_file format_bpb notes_name txt hello formatted)
write_new_file-IsFile_example =
    write_new_file-IsFile format_bpb notes_name txt hello formatted formatted-IsVolume refl refl
      (omega arith) (find_file-format_drive blank notes_name txt) (omega arith)

-- The kernel's own first write succeeds.
abbrev pub after : Run (Unit {0}) → Disk
after (ok _ d) = d
after _ = blank

-- The size in the record that is found, plus one; 0 if none is.
abbrev found_size : Option DirectoryEntry → ℕ
found_size none = 0
found_size (some e) = suc e.file_size

write_runs :
    found_size (
      find_file format_bpb notes_name txt
        (after (write_new_file format_bpb notes_name txt hello formatted)))
    ≡ 3
unfolding write_new_file find_file format_drive find_empty_root_slot find_free_cluster entry_bytes
    write_sectors cluster_to_lba set_fat_entry
write_runs = refl

-- A disk on which cluster 2 holds a file of one byte.
abbrev occupied : Disk
occupied = set_fat_entry format_bpb 2 0xFFFF formatted

occupied-IsVolume : IsVolume format_bpb occupied
unfolding get_fat_entry set_fat_entry format_drive
occupied-IsVolume = record {
  geometry = formatted-IsVolume.geometry;
  disk = set_fat_entry-IsDisk format_bpb 2 0xFFFF formatted formatted-IsVolume.disk;
  entry_0 = omega arith;
  entry_1 = omega arith;
}

occupied-Chain : Chain format_bpb occupied 2 (0 ∷ [])
unfolding get_fat_entry set_fat_entry format_drive
occupied-Chain = last (omega arith, omega arith, omega arith) (omega arith) refl

write_new_file-Chain_example :
    Ends
      (λ _ d'. Chain format_bpb d' 2 (0 ∷ []))
      (λ _ d'. Chain format_bpb d' 2 (0 ∷ []))
      (write_new_file format_bpb notes_name txt hello occupied)
write_new_file-Chain_example =
    write_new_file-Chain format_bpb notes_name txt hello occupied occupied-IsVolume 2 (0 ∷ [])
      occupied-Chain

abbrev corrupt : DirectoryEntry
corrupt = new_entry notes_name txt 2 1

find_free_cluster-IsFirstFree_example : IsFirstFree format_bpb formatted 2
find_free_cluster-IsFirstFree_example =
    find_free_cluster-IsFirstFree format_bpb formatted 2 (omega arith)
      (find_free_cluster-format_drive blank)

free_cluster_chain-Freed_example :
    (d' : Disk) × (free_cluster_chain format_bpb 2 occupied ≡ some d')
    × Freed format_bpb 2 occupied d'
free_cluster_chain-Freed_example =
    free_cluster_chain-Freed format_bpb 2 occupied occupied-IsVolume.disk

find_file-location_example :
    find_file format_bpb notes_name txt formatted
    ≡ Option.map entry_at (find_file_location format_bpb notes_name txt formatted)
find_file-location_example = find_file-location format_bpb notes_name txt formatted
