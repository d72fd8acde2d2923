-- ===== src/Fat16/Sound.antt =====
-- Volumes that the kernel makes: what holds of a disk between two operations (src/fat16.rs).
pub mod Files
pub mod Reached
use sil_os.Prelude.{
  ℕ, ◌+◌, ◌*◌, ◌/◌, ◌%◌, ◌^◌, ◌≤◌, ◌<◌, ◌≡◌, ◌⊎◌, ◌∙◌, refl, sym, inl, inr, arith, List, Option,
  none, some, length, get_or, Option-cases,
}
use mathlib.Core.Path.{subst}
use sil_os.Fat16.{
  Bpb, DirectoryEntry, Disk, IsDisk, FsError, Run, ok, err, out_of_fuel, file_not_found,
}
use sil_os.Fat16.Volume.{IsGeometry, entries, root_dir_start, root_dir_sectors, table_before_root}
use sil_os.Fat16.Table.{find_free_cluster}
use sil_os.Fat16.Table.Closed.{IsClosed, IsClosed-cong}
use sil_os.Fat16.Root.{find_empty_root_slot, find_file_location}
use sil_os.Fat16.File.{and_then, put_entry, write_chunks, write_new_file, overwrite_file}
use sil_os.Fat16.File.Chunks.{IsVolume, Keeps}
use sil_os.Fat16.File.Loop.{Ends, IsFull, Written, Keeps-IsVolume}
use sil_os.Fat16.File.Stores.{write_chunks-Ends}
use sil_os.Fat16.File.RoundTrip.{put_table, put-IsVolume, bounds, fits, record_of}
use sil_os.Fat16.File.NewFile.{Ends-bind, new_slot, new_full}
use sil_os.Fat16.File.Records.{
  IsRecord, IsDirectory, IsPlace, put-IsDirectory, IsDirectory-cong, slot-IsPlace, found-IsPlace,
  found-IsRecord,
}
use sil_os.Fat16.File.Located.{found_bounds}
use sil_os.Fat16.File.Overwritten.{
  IsFreed, freed, freed-IsFreed, new_record, overwrite_file-freed, new_fits,
}

-- A volume with a table of one sector at least, whose chains stay in the table, and whose directory
-- holds nothing but free slots and records.
pub record IsSound (b : Bpb) (d : Disk) : Type 0 where
  pub volume : IsVolume b d
  pub some_table : 0 < b.sectors_per_fat
  pub closed : IsClosed b d
  pub directory : IsDirectory b d

module _ (b : Bpb) (d : Disk) (s : IsSound b d) where
  -- The writing loop keeps a sound volume sound.
  Keeps-IsSound : (d' : Disk) → Keeps b none d d' → IsSound b d'
  Keeps-IsSound d' k =
      let v = s.volume in
      let n = s.some_table in
      record {
        volume = Keeps-IsVolume b d v none d' k (omega arith);
        some_table = n;
        closed = k.closed s.closed;
        directory =
            IsDirectory-cong b d d'
              (λ l low high.
                k.outside l (omega arith) (inr (omega (arith, table_before_root b v.geometry))))
              s.directory;
      }

  -- So does a record that is put at a place of the directory.
  put-IsSound :
      (lba off : ℕ) (e : DirectoryEntry)
      → root_dir_start b ≤ lba
      → lba < root_dir_start b + root_dir_sectors b
      → IsPlace off
      → IsRecord b e
      → IsSound b (put_entry lba off e d)
  put-IsSound lba off e low high place r =
      let v = s.volume in
      let n = s.some_table in
      record {
        volume = put-IsVolume b d v lba off e low high (omega arith);
        some_table = n;
        closed =
            IsClosed-cong b d (put_entry lba off e d) (put_table b d v lba off e low high) s.closed;
        directory = put-IsDirectory b d lba off e v.disk place r s.directory;
      }

  freed-IsSound : (start : ℕ) (d' : Disk) → IsFreed b start d d' → IsSound b d'
  freed-IsSound start d' f =
      let n = s.some_table in
      let v = s.volume in
      record {
        volume = f.volume;
        some_table = n;
        closed = f.closed;
        directory =
            IsDirectory-cong b d d'
              (λ l low high. f.outside l (inr (omega (arith, table_before_root b v.geometry))))
              s.directory;
      }

module _ (b : Bpb) (d : Disk) (s : IsSound b d) where
  -- On a sound volume `write_new_file` ends, and leaves one, whether it succeeds or fails.
  pub write_new_file-IsSound :
      (name ext data_bytes : List ℕ)
      → length name ≡ 8
      → length ext ≡ 3
      → Ends (λ _ d'. IsSound b d') (λ _ d'. IsSound b d') (write_new_file b name ext data_bytes d)
  write_new_file-IsSound name ext data_bytes name_8 ext_3 =
      let v = s.volume in
      elim (Option-cases (find_empty_root_slot b d)) [
        | inl full ↦ rw (new_full b name ext data_bytes d v full) s
        | inr ((lba, off), slot) ↦ rw (new_slot b name ext data_bytes d v lba off slot) (
            Ends-bind (Written b none 0 d data_bytes) (IsFull b none d) (λ _ d'. IsSound b d')
              (λ _ d'. IsSound b d') _ _ (write_chunks-Ends b data_bytes d v)
              (λ fc d1 w.
                let (low, high) = bounds b name ext data_bytes d v lba off slot fc d1 w in
                put-IsSound b d1 (Keeps-IsSound b d s d1 w.keeps) lba off
                  (record_of b name ext data_bytes d v lba off slot fc d1 w) low high
                  (slot-IsPlace b d lba off slot)
                  (
                    fits b name ext data_bytes d v lba off slot fc d1 w name_8 ext_3,
                    inl (omega (arith, w.first_is, w.inside)),
                  ))
              (λ e d1 f. Keeps-IsSound b d s d1 f.keeps))
      ]

  module _ (name ext new_data : List ℕ) where
    not_found :
        find_file_location b name ext d ≡ none
        → overwrite_file b name ext new_data d ≡ err file_not_found d
    unfolding overwrite_file
    not_found gone = rw (gone, overwrite_file)

    -- So does `overwrite_file`, also for a name that is not there.
    pub overwrite_file-IsSound :
        Ends (λ _ d'. IsSound b d') (λ _ d'. IsSound b d') (overwrite_file b name ext new_data d)
    overwrite_file-IsSound =
        let v = s.volume in
        elim (Option-cases (find_file_location b name ext d)) [
          | inl gone ↦ rw (not_found gone) s
          | inr ((lba, off, old), found) ↦
              let (fit, link) =
                found-IsRecord b name ext d lba off old v.geometry s.directory found in
              let (low, high) = found_bounds b name ext d lba off old found v.geometry in
              let (d1, e, f) = freed-IsFreed b d v s.closed old.cluster_low link in
              let s1 = freed-IsSound b d s old.cluster_low d1 f in
              rw (overwrite_file-freed b name ext new_data d v s.closed lba off old found link d1 e)
                (Ends-bind (Written b none 0 d1 new_data) (IsFull b none d1) (λ _ d'. IsSound b d')
                  (λ _ d'. IsSound b d') _ _ (write_chunks-Ends b new_data d1 f.volume)
                  (λ fc d2 w.
                    put-IsSound b d2 (Keeps-IsSound b d1 s1 d2 w.keeps) lba off
                      (new_record b name ext new_data d v s.closed lba off old found link fc) low
                      high (found-IsPlace b name ext d lba off old found)
                      (
                        new_fits b name ext new_data d v s.closed lba off old found link fit d1 f fc
                            d2 w,
                        inl (omega (arith, w.first_is, w.inside)),
                      ))
                  (λ x d2 full. Keeps-IsSound b d1 s1 d2 full.keeps))
        ]
