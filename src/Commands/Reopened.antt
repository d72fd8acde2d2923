-- ===== src/Commands/Reopened.antt =====
-- Text that the editor saves and opens again (src/editor/mod.rs: the Escape key and the start of
-- `run_editor`).
use sil_os.Prelude.{
  ℕ, ◌<◌, ◌^◌, ◌≡◌, refl, inl, inr, Option-cases, ap, List, none, some, length, get_or, utf8, IsStr,
  from_utf8_lossy-utf8,
}
use sil_os.Fat16.{Bpb, Disk, FsError, Run, ok, err, out_of_fuel}
use sil_os.Fat16.Table.{find_free_cluster}
use sil_os.Fat16.Root.{find_file, find_empty_root_slot}
use sil_os.Fat16.Root.Sectors.{IsLive}
use sil_os.Fat16.File.{write_new_file, overwrite_file}
use sil_os.Fat16.File.Loop.{Ends, Ends-map}
use sil_os.Fat16.File.RoundTrip.{IsFile, Refused, no_slot, no_cluster}
use sil_os.Fat16.File.NewFile.{write_new_file-IsFile}
use sil_os.Fat16.File.Overwritten.{IsLost}
use sil_os.Fat16.Sound.{IsSound}
use sil_os.Fat16.Sound.Files.{overwrite_file-IsFile}
use sil_os.Editor.{Editor}
use sil_os.Editor.Text.{editor_new, join}
use sil_os.Editor.Saved.{IsText, editor_new-join}
use sil_os.Commands.Session.{initial_data, disk_after, save}

-- What the next session finds: the text, whose lines are those that were saved; or the disk was full.
pub data Reopened (b : Bpb) (name ext : List ℕ) (e : Editor) (d d' : Disk) : Type 0 where
  reopened :
      (text : List ℕ)
      → initial_data (name, ext) (some b) d' ≡ some text
      → (editor_new text).lines ≡ e.lines
      → Reopened b name ext e d d'
  table_full : find_free_cluster b d' ≡ none → Reopened b name ext e d d'
  directory_full : find_empty_root_slot b d ≡ none → d' ≡ d → Reopened b name ext e d d'

module _ (b : Bpb) (name ext : List ℕ) (e : Editor) (text : IsText e.lines)
    (unicode : IsStr (join e.lines)) (d : Disk) where
  IsFile-Reopened :
      (d' : Disk) → IsFile b name ext (utf8 (join e.lines)) d' → Reopened b name ext e d d'
  unfolding initial_data
  IsFile-Reopened d' f =
      reopened (join e.lines)
        (rw (f.found, initial_data)
          (rw (f.reads, initial_data) (ap some (from_utf8_lossy-utf8 (join e.lines) unicode))))
        ((editor_new-join e.lines text).0)

  disk_after-Reopened :
      (r : Run (Unit {0}))
      → Ends (λ _ d'. Reopened b name ext e d d') (λ _ d'. Reopened b name ext e d d') r
      → (d' : Disk) × (disk_after r ≡ some d') × Reopened b name ext e d d'
  disk_after-Reopened (ok u d') h = (d', refl, h)
  disk_after-Reopened (err x d') h = (d', refl, h)
  disk_after-Reopened out_of_fuel h = absurd h

  Refused-Reopened : (x : FsError) (d' : Disk) → Refused b d x d' → Reopened b name ext e d d'
  Refused-Reopened x d' (no_slot q full same) = directory_full full same
  Refused-Reopened x d' (no_cluster f) = table_full f.none_free

  IsFile-Ends :
      (Q : FsError → Disk → Type 0) (r : Run (Unit {0}))
      → Ends (λ _ d'. IsFile b name ext (utf8 (join e.lines)) d') Q r
      → ((x : FsError) (d' : Disk) → Q x d' → Reopened b name ext e d d')
      → (d' : Disk) × (disk_after r ≡ some d') × Reopened b name ext e d d'
  IsFile-Ends Q r h f = disk_after-Reopened r (
      Ends-map (λ _ d'. IsFile b name ext (utf8 (join e.lines)) d')
        (λ _ d'. Reopened b name ext e d d') Q (λ _ d'. Reopened b name ext e d d') r h
        (λ _ d' k. IsFile-Reopened d' k) f)

  -- On a sound volume, with text of plain lines whose last one is not empty, of Unicode characters and
  -- of fewer than 2 ^ 32 bytes, under an 8.3 name that does not begin with a NUL or the byte 0xE5,
  -- the save at Escape ends. Opening the file again then gives the lines that were edited, unless
  -- the table or the directory was full.
  pub save-Reopened :
      IsSound b d
      → length name ≡ 8
      → length ext ≡ 3
      → IsLive (get_or name 0 0)
      → length (utf8 (join e.lines)) < 2 ^ 32
      → (d' : Disk) × (save (name, ext) e (some b) d ≡ some d') × Reopened b name ext e d d'
  unfolding save
  save-Reopened s name_8 ext_3 live small =
      let bytes = utf8 (join e.lines) in
      elim (Option-cases (find_file b name ext d)) [
        | inl gone ↦
            rw (gone, save)
              (IsFile-Ends (Refused b d) (write_new_file b name ext bytes d)
                (write_new_file-IsFile b name ext bytes d s.volume name_8 ext_3 live gone small)
                Refused-Reopened)
        | inr (old, there) ↦
            rw (there, save)
              (IsFile-Ends (IsLost b name ext d) (overwrite_file b name ext bytes d)
                (overwrite_file-IsFile b name ext bytes d s old there small)
                (λ x d' l. table_full l.none_free))
      ]
