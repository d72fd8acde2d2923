-- ===== src/Fat16/File/Overwritten.antt =====
-- The theorems about `overwrite_file` (src/fat16.rs).
use sil_os.Prelude.{
  ℕ, ◌+◌, ◌%◌, ◌^◌, ◌≤◌, ◌<◌, ◌≡◌, ◌⊎◌, ◌∙◌, refl, ap, inl, inr, arith, List, Option, none, some,
  leb, if◌then◌else◌, Bool-cases, length,
}
use mathlib.Core.Option
use sil_os.Fat16.{Bpb, DirectoryEntry, Disk, FsError, disk_full, ok}
use sil_os.Fat16.Volume.{
  IsGeometry, cluster_start, root_dir_start, root_dir_sectors, table_before_root,
}
use sil_os.Fat16.Table.{get_fat_entry, find_free_cluster}
use sil_os.Fat16.Table.Closed.{IsLink, IsClosed}
use sil_os.Fat16.Data.Sectors.{sectors_bytes_cong}
use sil_os.Fat16.Data.Files.{Chain, last, more}
use sil_os.Fat16.Root.{find_file_location}
use sil_os.Fat16.Root.Slots.{IsEntry}
use sil_os.Fat16.Root.Lookup.{entry_at, find_file-location, find_file_location_cong}
use sil_os.Fat16.File.{and_then, put_entry, write_chunks, free_cluster_chain, overwrite_file}
use sil_os.Fat16.File.Chunks.{IsVolume}
use sil_os.Fat16.File.Loop.{Ends, IsFull, Written, Chain-Keeps}
use sil_os.Fat16.File.Stores.{write_chunks-Ends}
use sil_os.Fat16.File.Freed.{free_cluster_chain-Freed}
use sil_os.Fat16.File.Confined.{
  Reaches, here, onward, free_cluster_chain-IsClosed, free_cluster_chain-outside,
  free_cluster_chain-entry,
}
use sil_os.Fat16.File.RoundTrip.{IsFile, Written-IsVolume, Written_root, old-Chain, stored-IsFile}
use sil_os.Fat16.File.NewFile.{Ends-bind}
use sil_os.Fat16.File.Located.{names_there, found_bounds}
use sil_os.Fat16.File.Replaced.{put-located}

-- The disk on which the new data is written: the table alone was changed, and no entry of it that
-- the old chain does not come to.
pub record IsFreed (b : Bpb) (start : ℕ) (d d' : Disk) : Type 0 where
  pub volume : IsVolume b d'
  pub outside :
      (l : ℕ) → (l < b.reserved_sectors) ⊎ (b.reserved_sectors + b.sectors_per_fat ≤ l) → d' l ≡ d l
  pub closed : IsClosed b d'
  pub kept : (k : ℕ) → ¬ Reaches b d k start → get_fat_entry b k d' ≡ get_fat_entry b k d

abbrev pub freed : Bpb → ℕ → Disk → Option Disk
freed b start d = if leb 2 start then free_cluster_chain b start d else some d

module _ (b : Bpb) (d : Disk) (v : IsVolume b d) (closed : IsClosed b d) (start : ℕ)
    (link : IsLink b start) where
  pub freed-IsFreed : (d' : Disk) × (freed b start d ≡ some d') × IsFreed b start d d'
  freed-IsFreed = elim (Bool-cases (leb 2 start)) [
    | inr none_to_free ↦ (
      d,
      rw none_to_free,
      record { volume = v; outside = λ l o. refl; closed = closed; kept = λ k a. refl },
    )
    | inl two ↦
        let (d', e, f) = free_cluster_chain-Freed b start d v.disk in
        (
          d',
          rw two e,
          record {
            volume = record {
              geometry = v.geometry;
              disk = f.disk;
              entry_0 = rw (f.reserved 0 (omega arith)) v.entry_0;
              entry_1 = rw (f.reserved 1 (omega arith)) v.entry_1;
            };
            outside = free_cluster_chain-outside b start d d' v.disk e closed link;
            closed = free_cluster_chain-IsClosed b start d d' v.disk e closed link;
            kept = free_cluster_chain-entry b start d d' v.disk e;
          },
        )
  ]

-- A file that shares no cluster with the freed chain keeps its clusters.
IsFreed-Chain :
    (b : Bpb) (g : IsGeometry b) (d d' : Disk) (start : ℕ) {c : ℕ} {bytes : List ℕ}
    → IsFreed b start d d'
    → ((k : ℕ) → Reaches b d k c → ¬ Reaches b d k start)
    → Chain b d c bytes
    → Chain b d' c bytes
IsFreed-Chain b g d d' start f apart (last {c} k fits e) =
    let kept = f.kept c (apart c (here k.0 (omega (arith, k.1, g.fat_size)))) in
    last (k.0, k.1, rw kept k.2) fits
      (rw
        (sectors_bytes_cong b.sectors_per_cluster (cluster_start b c) d d'
          (λ i lt. f.outside (cluster_start b c + i) (inr (omega (arith, table_before_root b g)))))
        e)
IsFreed-Chain b g d d' start f apart (more {c} k long e next) =
    let kept = f.kept c (apart c (here k.0 (omega (arith, k.1, g.fat_size)))) in
    more (k.0, k.1, rw kept k.2) long
      (rw
        (sectors_bytes_cong b.sectors_per_cluster (cluster_start b c) d d'
          (λ i lt. f.outside (cluster_start b c + i) (inr (omega (arith, table_before_root b g)))))
        e)
      (rw kept (
        IsFreed-Chain b g d d' start f
          (λ j r. apart j (onward k.0 (omega (arith, k.1, g.fat_size)) r)) next))

-- Why `overwrite_file` fails on a volume where the file is: no cluster was free for the rest of the
-- new data. The file's record is as it was, and there still is a volume.
pub record IsLost (b : Bpb) (name ext : List ℕ) (d : Disk) (e : FsError) (d' : Disk) : Type 0 where
  pub error : e ≡ disk_full
  pub none_free : find_free_cluster b d' ≡ none
  pub same_record : find_file_location b name ext d' ≡ find_file_location b name ext d

module _ (b : Bpb) (name ext new_data : List ℕ) (d : Disk) (v : IsVolume b d)
    (closed : IsClosed b d) (lba off : ℕ) (old : DirectoryEntry)
    (found : find_file_location b name ext d ≡ some (lba, off, old))
    (link : IsLink b old.cluster_low) where
  abbrev pub new_record : ℕ → DirectoryEntry
  new_record fc = record old { cluster_low = fc; file_size = length new_data % 2 ^ 32 }

  pub overwrite_file-freed :
      (d1 : Disk)
      → freed b old.cluster_low d ≡ some d1
      → overwrite_file b name ext new_data d
        ≡ and_then
            (write_chunks (length new_data + 1) b new_data 0 none 0 d1)
            λ fc d2. ok tt (put_entry lba off (new_record fc) d2)
  unfolding overwrite_file
  overwrite_file-freed d1 e = rw (found, overwrite_file) (rw (e, overwrite_file) refl)

  module _ (fits : IsEntry old) (d1 : Disk) (f : IsFreed b old.cluster_low d d1) (fc : ℕ)
      (d2 : Disk) (w : Written b none 0 d1 new_data fc d2) where
    same_root :
        (l : ℕ) → root_dir_start b ≤ l → l < root_dir_start b + root_dir_sectors b → d2 l ≡ d l
    same_root l low high =
        Written_root b d1 f.volume new_data fc d2 w l low high
        ∙ f.outside l (inr (omega (arith, table_before_root b v.geometry)))

    located : find_file_location b name ext d2 ≡ some (lba, off, old)
    located = find_file_location_cong b v.geometry d d2 same_root name ext ∙ found

    pub new_fits : IsEntry (new_record fc)
    new_fits =
        let e = w.first_is in
        let g = v.geometry in
        record {
          name_8 = fits.name_8;
          ext_3 = fits.ext_3;
          time_word = fits.time_word;
          date_word = fits.date_word;
          access_word = fits.access_word;
          high_word = fits.high_word;
          modified_time_word = fits.modified_time_word;
          modified_date_word = fits.modified_date_word;
          low_word = omega (arith, w.inside, g.fat_size);
          size_word = omega arith;
        }

    replaced :
        find_file_location b name ext (put_entry lba off (new_record fc) d2)
        ≡ some (lba, off, new_record fc)
    replaced =
        let disk = (Written-IsVolume b d1 f.volume new_data fc d2 w).disk in
        let names = names_there b name ext d2 lba off old located in
        put-located b name ext d2 lba off old located disk (new_record fc) new_fits names.0 names.1

    new-IsFile :
        length new_data < 2 ^ 32 → IsFile b name ext new_data (put_entry lba off (new_record fc) d2)
    new-IsFile small =
        let (low, high) = found_bounds b name ext d lba off old found v.geometry in
        stored-IsFile b d1 f.volume new_data fc d2 w lba off low high (new_record fc) name ext refl
          (omega arith)
          (find_file-location b name ext (put_entry lba off (new_record fc) d2)
            ∙ ap (Option.map entry_at) replaced)

  pub located-IsFile :
      IsEntry old
      → length new_data < 2 ^ 32
      → Ends
          (λ _ d'. IsFile b name ext new_data d')
          (IsLost b name ext d)
          (overwrite_file b name ext new_data d)
  located-IsFile fits small =
      let (d1, e, f) = freed-IsFreed b d v closed old.cluster_low link in
      rw (overwrite_file-freed d1 e) (
        Ends-bind (Written b none 0 d1 new_data) (IsFull b none d1)
          (λ _ d'. IsFile b name ext new_data d') (IsLost b name ext d) _ _
          (write_chunks-Ends b new_data d1 f.volume) (λ fc d2 w. new-IsFile fits d1 f fc d2 w small)
          (λ x d2 full. record {
            error = full.error;
            none_free = full.none_free;
            same_record =
                find_file_location_cong b v.geometry d d2
                  (λ l low high.
                    full.keeps.outside l (omega arith)
                      (inr (omega (arith, table_before_root b v.geometry)))
                    ∙ f.outside l (inr (omega (arith, table_before_root b v.geometry))))
                  name ext;
          }))

  pub located-Chain :
      (c : ℕ) (bytes : List ℕ)
      → ((k : ℕ) → Reaches b d k c → ¬ Reaches b d k old.cluster_low)
      → Chain b d c bytes
      → Ends
          (λ _ d'. Chain b d' c bytes)
          (λ _ d'. Chain b d' c bytes)
          (overwrite_file b name ext new_data d)
  located-Chain c bytes apart h =
      let (d1, e, f) = freed-IsFreed b d v closed old.cluster_low link in
      let h1 = IsFreed-Chain b v.geometry d d1 old.cluster_low f apart h in
      rw (overwrite_file-freed d1 e) (
        Ends-bind (Written b none 0 d1 new_data) (IsFull b none d1) (λ _ d'. Chain b d' c bytes)
          (λ _ d'. Chain b d' c bytes) _ _ (write_chunks-Ends b new_data d1 f.volume)
          (λ fc d2 w.
            let (low, high) = found_bounds b name ext d lba off old found v.geometry in
            old-Chain b d1 f.volume new_data fc d2 w lba off low high (new_record fc) c bytes h1)
          (λ x d2 full. Chain-Keeps b d1 d2 full.keeps h1))
