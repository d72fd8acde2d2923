-- ===== src/Fat16/Sound/Files.antt =====
-- `overwrite_file` on the volumes that the kernel makes (src/fat16.rs).
use sil_os.Prelude.{ℕ, ◌<◌, ◌^◌, ◌≡◌, ◌∙◌, sym, ap, inl, inr, List, some, Option-cases, length}
use mathlib.Core.Option
use sil_os.Fat16.{Bpb, DirectoryEntry, Disk}
use sil_os.Fat16.Data.Files.{Chain}
use sil_os.Fat16.Root.{find_file, find_file_location}
use sil_os.Fat16.Root.Lookup.{entry_at, find_file-location}
use sil_os.Fat16.File.{overwrite_file}
use sil_os.Fat16.File.Loop.{Ends}
use sil_os.Fat16.File.Confined.{Reaches}
use sil_os.Fat16.File.RoundTrip.{IsFile}
use sil_os.Fat16.File.Records.{found-IsRecord}
use sil_os.Fat16.File.Overwritten.{IsLost, located-IsFile, located-Chain}
use sil_os.Fat16.Sound.{IsSound}

some_entry : (a b : DirectoryEntry) → some a ≡ some b → a ≡ b
some_entry a b e = cc

module _ (b : Bpb) (name ext new_data : List ℕ) (d : Disk) (s : IsSound b d) (old : DirectoryEntry)
    (found : find_file b name ext d ≡ some old) where
  -- The record that `find_file` returns has a place.
  located : (lba : ℕ) × (off : ℕ) × (find_file_location b name ext d ≡ some (lba, off, old))
  located = elim (Option-cases (find_file_location b name ext d)) [
    | inl gone ↦ cc (find_file-location b name ext d ∙ ap (Option.map entry_at) gone)
    | inr ((lba, off, e), there) ↦
        let same : some e ≡ some old =
          sym (find_file-location b name ext d ∙ ap (Option.map entry_at) there) ∙ found in
        (lba, off, there ∙ ap (λ k. some (lba, off, k)) (some_entry e old same))
  ]

  -- On a sound volume, for a name that is found and fewer than 2 ^ 32 bytes, `overwrite_file` ends. If
  -- it succeeds, the name is found with a record of the right size, reading the file gives the new
  -- data, and there still is a volume. If it fails, no cluster is free any more, and the directory
  -- has the old record.
  pub overwrite_file-IsFile :
      length new_data < 2 ^ 32
      → Ends
          (λ _ d'. IsFile b name ext new_data d')
          (IsLost b name ext d)
          (overwrite_file b name ext new_data d)
  overwrite_file-IsFile small =
      let v = s.volume in
      let (lba, off, there) = located in
      let (fit, link) = found-IsRecord b name ext d lba off old v.geometry s.directory there in
      located-IsFile b name ext new_data d v s.closed lba off old there link fit small

  -- On a sound volume, for a name that is found, every file that shares no cluster with the chain of
  -- that name keeps its clusters and its bytes, whether `overwrite_file` succeeds or fails.
  pub overwrite_file-Chain :
      (c : ℕ) (bytes : List ℕ)
      → Chain b d c bytes
      → ((k : ℕ) → Reaches b d k c → ¬ Reaches b d k old.cluster_low)
      → Ends
          (λ _ d'. Chain b d' c bytes)
          (λ _ d'. Chain b d' c bytes)
          (overwrite_file b name ext new_data d)
  overwrite_file-Chain c bytes h apart =
      let v = s.volume in
      let (lba, off, there) = located in
      let (fit, link) = found-IsRecord b name ext d lba off old v.geometry s.directory there in
      located-Chain b name ext new_data d v s.closed lba off old there link c bytes apart h
