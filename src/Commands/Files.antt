-- ===== src/Commands/Files.antt =====
-- The commands on files (src/commands.rs: `cat_file`, `make_file`, `edit`, `format_disk`, and the
-- reading of `run_file`). A chain of clusters that never ends keeps the drive busy forever.
use sil_os.Prelude.{
  ℕ, true, Option, none, some, List, ◌++◌, leb, if◌then◌else◌, length, codes, join_by, drop, utf8,
  from_utf8, show_nat,
}
use sil_os.Risp.{Token}
use sil_os.Risp.System.{CmdResult, success, process_error, cmd_runs_on}
use sil_os.Fat16.{
  Run, ok, err, out_of_fuel, FsError, root_directory_full, disk_full, file_not_found,
}
use sil_os.Fat16.Root.{find_file}
use sil_os.Fat16.Data.{read_file}
use sil_os.Fat16.File.{write_new_file, overwrite_file}
use sil_os.Fat16.Mount.{format_drive}
use sil_os.Commands.{Kernel}
use sil_os.Commands.Names.{resolve_name_ext, padded}
use sil_os.Commands.Output.{print, say, worked}

abbrev pub fs_error : FsError → List ℕ
fs_error root_directory_full = codes "Root directory full"
fs_error disk_full = codes "Disk full"
fs_error file_not_found = codes "File not found"

-- The bytes of a file that a command names.
pub data Found : Type 0 where
  bytes : List ℕ → Found
  not_found : Found
  not_mounted : Found
  endless : Found

abbrev pub found_bytes : Option (List ℕ) → Found
found_bytes none = endless
found_bytes (some file_data) = bytes file_data

abbrev pub dotted : List ℕ → List ℕ → List ℕ
dotted name_str ext_str = name_str ++ (codes "." ++ ext_str)

abbrev pub mkdir_usage : List ℕ
mkdir_usage = codes "Usage: mkdir <NAME.EXT | NAME EXT> <data to write>"

abbrev pub edit_usage : List ℕ
edit_usage = codes "Usage: edit <NAME.EXT | NAME EXT> <data>"

module _ {E : Type 0} where
  unfoldable pub lookup_file : List ℕ → List ℕ → Kernel E → Found
  unfolding find_file read_file padded
  lookup_file name_str ext_str k = elim k.fs [
    | none ↦ not_mounted
    | some b ↦ elim (find_file b (padded 8 name_str) (padded 3 ext_str) k.disk) [
      | none ↦ not_found
      | some entry ↦ found_bytes (read_file b entry k.disk)
    ]
  ]

  -- The output of `cat`.
  abbrev pub show_file : List ℕ → List ℕ → Kernel E → CmdResult (Kernel E)
  show_file name_str text k = say (codes "--- " ++ (name_str ++ codes " ---")) k λ k1.
      say text k1 λ k2. say (codes "------------") k2 (worked (codes "File read successfully"))

  abbrev pub cat_found : List ℕ → List ℕ → Found → Kernel E → CmdResult (Kernel E)
  cat_found name_str ext_str (bytes file_data) k = elim (from_utf8 file_data) [
    | none ↦ process_error (codes "File contains invalid UTF-8 (might be a binary file)") k
    | some text ↦ show_file name_str text k
  ]
  cat_found name_str ext_str not_found k =
      process_error (codes "File " ++ (dotted name_str ext_str ++ codes " not found")) k
  cat_found name_str ext_str not_mounted k = process_error (codes "File system not mounted!") k
  cat_found name_str ext_str endless k = cmd_runs_on

  unfoldable pub cat_file : List Token → Kernel E → CmdResult (Kernel E)
  unfolding resolve_name_ext lookup_file from_utf8 print
  cat_file args k = elim (resolve_name_ext args 1) [
    | none ↦ process_error (codes "Usage: cat <NAME.EXT | NAME EXT>") k
    | some (name_str, ext_str, next_idx) ↦
        cat_found name_str ext_str (lookup_file name_str ext_str k) k
  ]

  abbrev pub made : List ℕ → List ℕ → Kernel E → Run (Unit {0}) → CmdResult (Kernel E)
  made message prefix k (ok u d) = success message true (record k { disk = d })
  made message prefix k (err e d) = process_error (prefix ++ fs_error e) (record k { disk = d })
  made message prefix k out_of_fuel = cmd_runs_on

  unfoldable pub make_file : List Token → Kernel E → CmdResult (Kernel E)
  unfolding resolve_name_ext write_new_file padded utf8
  make_file args k = elim (resolve_name_ext args 1) [
    | none ↦ process_error mkdir_usage k
    | some (name_str, ext_str, next_idx) ↦
        let data_bytes = utf8 (join_by (codes " ") (drop next_idx args)) in
        let message =
          codes "Created "
          ++ (dotted name_str ext_str
              ++ (codes " (" ++ (show_nat (length data_bytes) ++ codes " bytes)"))) in
        if leb (length args) next_idx then process_error mkdir_usage k else elim k.fs [
          | none ↦ process_error (codes "File system not mounted! Did you run fs::init()?") k
          | some b ↦
              made message (codes "FS Error: ") k
                (write_new_file b (padded 8 name_str) (padded 3 ext_str) data_bytes k.disk)
        ]
  ]

  abbrev pub edited : Kernel E → Run (Unit {0}) → CmdResult (Kernel E)
  edited k (ok u d) = worked (codes "Worked") (record k { disk = d })
  edited k (err e d) = process_error (fs_error e) (record k { disk = d })
  edited k out_of_fuel = cmd_runs_on

  unfoldable pub edit : List Token → Kernel E → CmdResult (Kernel E)
  unfolding resolve_name_ext overwrite_file padded utf8
  edit args k = elim (resolve_name_ext args 1) [
    | none ↦ process_error edit_usage k
    | some (name_str, ext_str, next_idx) ↦
        let data_bytes = utf8 (join_by (codes " ") (drop next_idx args)) in
        if leb (length args) next_idx then process_error edit_usage k else elim k.fs [
          | none ↦ process_error (codes "File system not mounted!") k
          | some b ↦
              edited k (overwrite_file b (padded 8 name_str) (padded 3 ext_str) data_bytes k.disk)
        ]
  ]

  -- `format_drive` does not fail, and prints that it is done.
  unfoldable pub format_disk : List Token → Kernel E → CmdResult (Kernel E)
  unfolding format_drive print
  format_disk args k =
      say (codes "Formatted drive!") (record k { disk = format_drive k.disk })
        λ k'. success (codes "format worked!") true k'
