-- ===== src/Tests/Volumes.antt =====
-- Files that are written over on a formatted disk, and the editor's session with one (src/fat16.rs,
-- src/editor/mod.rs).
use sil_os.Prelude.{ℕ, ◌≤◌, refl, arith, List, [], ◌∷◌}
use sil_os.Fat16.{Disk, entry_bytes}
use sil_os.Fat16.Volume.{cluster_to_lba}
use sil_os.Fat16.Table.{get_fat_entry, set_fat_entry, find_free_cluster}
use sil_os.Fat16.Data.{write_sectors}
use sil_os.Fat16.Data.Sectors.{length-zero_sector}
use sil_os.Fat16.Data.Files.{Chain, last}
use sil_os.Fat16.Root.{find_empty_root_slot, find_file}
use sil_os.Fat16.File.{new_entry, write_new_file, overwrite_file}
use sil_os.Fat16.File.Loop.{Ends}
use sil_os.Fat16.File.RoundTrip.{IsFile}
use sil_os.Fat16.File.Overwritten.{IsLost}
use sil_os.Fat16.File.Confined.{Reaches, Reaches-one}
use sil_os.Fat16.Mount.{format_bpb, format_drive}
use sil_os.Fat16.Sound.{IsSound}
use sil_os.Fat16.Sound.Files.{overwrite_file-IsFile, overwrite_file-Chain}
use sil_os.Fat16.Sound.Reached.{done, Reached, formatted, created, Reached-IsSound}
use sil_os.Tests.Files.{blank, notes_name, txt, hello, after}

abbrev more_name : List ℕ
more_name = b'M' ∷ b'O' ∷ b'R' ∷ b'E' ∷ b' ' ∷ b' ' ∷ b' ' ∷ b' ' ∷ []

-- The formatted disk with one file, and with two.
abbrev pub noted : Disk
noted = after (write_new_file format_bpb notes_name txt hello (format_drive blank))

abbrev both : Disk
both = after (write_new_file format_bpb more_name txt hello noted)

pub noted-Reached : Reached noted
unfolding write_new_file find_file format_drive find_empty_root_slot find_free_cluster entry_bytes
    write_sectors cluster_to_lba set_fat_entry
noted-Reached =
    created notes_name txt hello refl refl (formatted blank (λ l. length-zero_sector)) done

both-Reached : Reached both
unfolding write_new_file find_file format_drive find_empty_root_slot find_free_cluster entry_bytes
    write_sectors cluster_to_lba set_fat_entry
both-Reached = created more_name txt hello refl refl noted-Reached done

Reached-IsSound_example : IsSound format_bpb both
Reached-IsSound_example = Reached-IsSound both-Reached

overwrite_file-IsFile_example :
    Ends
      (λ _ d'. IsFile format_bpb notes_name txt (b'!' ∷ []) d')
      (IsLost format_bpb notes_name txt noted)
      (overwrite_file format_bpb notes_name txt (b'!' ∷ []) noted)
unfolding write_new_file find_file format_drive find_empty_root_slot find_free_cluster entry_bytes
    write_sectors cluster_to_lba set_fat_entry
overwrite_file-IsFile_example =
    overwrite_file-IsFile format_bpb notes_name txt (b'!' ∷ []) noted
      (Reached-IsSound noted-Reached) (new_entry notes_name txt 2 2) refl (omega arith)

both-Chain : Chain format_bpb both 3 hello
unfolding write_new_file find_file format_drive find_empty_root_slot find_free_cluster entry_bytes
    write_sectors cluster_to_lba set_fat_entry get_fat_entry
both-Chain = last (omega arith, omega arith, omega arith) (omega arith) refl

marks : (0xFFF8 ≤ get_fat_entry format_bpb 2 both) × (0xFFF8 ≤ get_fat_entry format_bpb 3 both)
unfolding write_new_file find_file format_drive find_empty_root_slot find_free_cluster entry_bytes
    write_sectors cluster_to_lba set_fat_entry get_fat_entry
marks = (omega arith, omega arith)

both_apart : (k : ℕ) → Reaches format_bpb both k 3 → ¬ Reaches format_bpb both k 2
both_apart k r q = absurd (
    omega (arith, Reaches-one format_bpb both k marks.1 r, Reaches-one format_bpb both k marks.0 q))

overwrite_file-Chain_example :
    Ends
      (λ _ d'. Chain format_bpb d' 3 hello)
      (λ _ d'. Chain format_bpb d' 3 hello)
      (overwrite_file format_bpb notes_name txt (b'!' ∷ []) both)
unfolding write_new_file find_file format_drive find_empty_root_slot find_free_cluster entry_bytes
    write_sectors cluster_to_lba set_fat_entry
overwrite_file-Chain_example =
    overwrite_file-Chain format_bpb notes_name txt (b'!' ∷ []) both (Reached-IsSound both-Reached)
      (new_entry notes_name txt 2 2) refl 3 hello both-Chain both_apart
