-- ===== src/Fat16/Sound/Reached.antt =====
-- The disks that formatting and the two writers lead to (src/fat16.rs).
use sil_os.Prelude.{ℕ, ◌≡◌, List, length}
use sil_os.Fat16.{Disk, IsDisk, FsError, Run, ok, err}
use sil_os.Fat16.File.{write_new_file, overwrite_file}
use sil_os.Fat16.File.Loop.{Ends}
use sil_os.Fat16.Mount.{format_bpb, format_drive}
use sil_os.Fat16.Mount.Clean.{format_drive-IsSound}
use sil_os.Fat16.Sound.{IsSound, write_new_file-IsSound, overwrite_file-IsSound}

-- The operation succeeded or failed, and left the disk `d'`.
pub data Leaves (d' : Disk) : Run (Unit {0}) → Type 0 where
  done : {u : Unit {0}} → Leaves d' (ok u d')
  failed : {e : FsError} → Leaves d' (err e d')

Ends-Leaves :
    (P : Disk → Type 0) (d' : Disk) (r : Run (Unit {0}))
    → Ends (λ _ d. P d) (λ _ d. P d) r
    → Leaves d' r
    → P d'
Ends-Leaves P d' r h done = h
Ends-Leaves P d' r h failed = h

-- Formatting a disk, and then any files created and overwritten in any order, with success or not.
pub data Reached : Disk → Type 0 where
  formatted : (d : Disk) → IsDisk d → Reached (format_drive d)
  created :
      {d d' : Disk} (name ext data_bytes : List ℕ)
      → length name ≡ 8
      → length ext ≡ 3
      → Reached d
      → Leaves d' (write_new_file format_bpb name ext data_bytes d)
      → Reached d'
  overwritten :
      {d d' : Disk} (name ext new_data : List ℕ)
      → Reached d
      → Leaves d' (overwrite_file format_bpb name ext new_data d)
      → Reached d'

-- However many files are created and overwritten on a disk of 512-byte sectors that was formatted,
-- with success or not, the disk holds a volume whose table's chains stay in the table and whose
-- directory has nothing but free slots and records that fit and lead into the table.
pub Reached-IsSound : {d : Disk} → Reached d → IsSound format_bpb d
Reached-IsSound (formatted d h) = format_drive-IsSound d h
Reached-IsSound (created {d} {d'} name ext data_bytes n x r l) =
    Ends-Leaves (IsSound format_bpb) d' _
      (write_new_file-IsSound format_bpb d (Reached-IsSound r) name ext data_bytes n x) l
Reached-IsSound (overwritten {d} {d'} name ext new_data r l) =
    Ends-Leaves (IsSound format_bpb) d' _
      (overwrite_file-IsSound format_bpb d (Reached-IsSound r) name ext new_data) l
