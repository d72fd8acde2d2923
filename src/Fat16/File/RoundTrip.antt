-- ===== src/Fat16/File/RoundTrip.antt =====
-- `write_new_file` as a whole: the new file is found and read back, and the other files stay.
use sil_os.Prelude.{
  refl, ℕ, ◌+◌, ◌*◌, ◌/◌, ◌%◌, ◌^◌, ◌≤◌, ◌<◌, ◌≡◌, ◌≢◌, ◌∙◌, sym, inr, List, some, none, arith,
  length, get_or, length-overwrite,
}
use mathlib.Core.Path.{subst}
use sil_os.Fat16.{Bpb, DirectoryEntry, Disk, IsDisk, FsError, root_directory_full, entry_bytes}
use sil_os.Fat16.Volume.{
  IsGeometry, entries, cluster_start, root_dir_start, root_dir_sectors, table_before_root,
}
use sil_os.Fat16.Table.{get_fat_entry}
use sil_os.Fat16.Data.{read_file}
use sil_os.Fat16.Data.Files.{Chain, Chain-cong, read_file-Chain}
use sil_os.Fat16.Root.{root_sectors_16, find_empty_root_slot, find_file}
use sil_os.Fat16.Root.Slots.{IsEntry}
use sil_os.Fat16.Root.Sectors.{IsLive}
use sil_os.Fat16.Root.Lookup.{
  write_block_ne, empty_slot_from-bounds, find_file-put, find_file_cong, find_empty_root_slot_cong,
}
use sil_os.Fat16.File.{new_entry, put_entry}
use sil_os.Fat16.File.Chunks.{IsVolume}
use sil_os.Fat16.File.Loop.{Written, IsFull, Keeps-IsVolume, Chain-Keeps}

-- A slot of the directory lies in its sectors.
slot_bounds :
    (b : Bpb) (d : Disk) (lba off : ℕ)
    → IsGeometry b
    → find_empty_root_slot b d ≡ some (lba, off)
    → (root_dir_start b ≤ lba) × (lba < root_dir_start b + root_dir_sectors b)
unfolding find_empty_root_slot
slot_bounds b d lba off g e =
    let r = empty_slot_from-bounds (root_sectors_16 b) 0 (root_dir_start b) d lba off e in
    omega (arith, g.root_word)

-- Writing a record changes one sector of the directory: the table and the clusters stay.
module _ (b : Bpb) (d : Disk) (v : IsVolume b d) (lba off : ℕ) (e : DirectoryEntry)
    (low : root_dir_start b ≤ lba) (high : lba < root_dir_start b + root_dir_sectors b) where
  put_other : (l : ℕ) → l ≢ lba → put_entry lba off e d l ≡ d l
  unfolding put_entry
  put_other l ne = write_block_ne lba l _ d ne

  pub put_table :
      (k : ℕ) → k < entries b → get_fat_entry b k (put_entry lba off e d) ≡ get_fat_entry b k d
  unfolding get_fat_entry
  put_table k inside =
      rw (
        put_other (b.reserved_sectors + k * 2 / 512)
          (omega (arith, table_before_root b v.geometry)))

  put-Chain : {c : ℕ} {bytes : List ℕ} → Chain b d c bytes → Chain b (put_entry lba off e d) c bytes
  put-Chain h =
      Chain-cong b d (put_entry lba off e d)
        (λ k u. (put_table k u.1, λ i lt. put_other (cluster_start b k + i) (omega arith))) h

  put-IsDisk : IsDisk (put_entry lba off e d)
  unfolding put_entry
  put-IsDisk l = ground (arith, v.disk l, v.disk lba, length-overwrite off (entry_bytes e) (d lba))

  pub put-IsVolume : 2 ≤ entries b → IsVolume b (put_entry lba off e d)
  put-IsVolume two = record {
    geometry = v.geometry;
    disk = put-IsDisk;
    entry_0 = rw (put_table 0 (omega arith)) v.entry_0;
    entry_1 = rw (put_table 1 (omega arith)) v.entry_1;
  }

-- The file `name`.`ext` is on the volume and holds `data_bytes`.
pub record IsFile (b : Bpb) (name ext data_bytes : List ℕ) (d : Disk) : Type 0 where
  pub entry : DirectoryEntry
  pub found : find_file b name ext d ≡ some entry
  pub size : entry.file_size ≡ length data_bytes
  pub chain : Chain b d entry.cluster_low data_bytes
  pub reads : read_file b entry d ≡ some data_bytes
  pub volume : IsVolume b d

-- Why `write_new_file` fails: no slot in the directory, and nothing was changed; or no cluster.
pub data Refused (b : Bpb) (d : Disk) (e : FsError) (d' : Disk) : Type 0 where
  no_slot : e ≡ root_directory_full → find_empty_root_slot b d ≡ none → d' ≡ d → Refused b d e d'
  no_cluster : IsFull b none d e d' → Refused b d e d'

-- The record `e` of the clusters that the loop wrote goes into a sector of the directory.
module _ (b : Bpb) (d : Disk) (v : IsVolume b d) (data_bytes : List ℕ) (fc : ℕ) (d1 : Disk)
    (w : Written b none 0 d data_bytes fc d1) where
  pub Written-IsVolume : IsVolume b d1
  Written-IsVolume = Keeps-IsVolume b d v none d1 w.keeps (omega (arith, w.number, w.inside))

  -- The loop leaves the directory alone.
  pub Written_root :
      (l : ℕ) → root_dir_start b ≤ l → l < root_dir_start b + root_dir_sectors b → d1 l ≡ d l
  Written_root l a c =
      w.keeps.outside l (omega arith) (inr (omega (arith, table_before_root b v.geometry)))

  module _ (lba off : ℕ) (low : root_dir_start b ≤ lba)
      (high : lba < root_dir_start b + root_dir_sectors b) (e : DirectoryEntry) where
    pub old-Chain :
        (c : ℕ) (bytes : List ℕ) → Chain b d c bytes → Chain b (put_entry lba off e d1) c bytes
    old-Chain c bytes h =
        put-Chain b d1 Written-IsVolume lba off e low high (Chain-Keeps b d d1 w.keeps h)

    new-Chain : e.cluster_low ≡ fc → Chain b (put_entry lba off e d1) e.cluster_low data_bytes
    new-Chain first =
        subst (λ k. Chain b (put_entry lba off e d1) k data_bytes) (sym (first ∙ w.first_is))
          (put-Chain b d1 Written-IsVolume lba off e low high w.chain)

    pub stored-IsFile :
        (name ext : List ℕ)
        → e.cluster_low ≡ fc
        → e.file_size ≡ length data_bytes
        → find_file b name ext (put_entry lba off e d1) ≡ some e
        → IsFile b name ext data_bytes (put_entry lba off e d1)
    stored-IsFile name ext first size found =
        let d' = put_entry lba off e d1 in
        let v' =
          put-IsVolume b d1 Written-IsVolume lba off e low high
            (omega (arith, w.number, w.inside)) in
        record {
          entry = e;
          found = found;
          size = size;
          chain = new-Chain first;
          reads = read_file-Chain b v.geometry d' v'.disk e data_bytes (new-Chain first) size;
          volume = v';
        }

module _ (b : Bpb) (name ext data_bytes : List ℕ) (d : Disk) (v : IsVolume b d) (lba off : ℕ)
    (slot : find_empty_root_slot b d ≡ some (lba, off)) (fc : ℕ) (d1 : Disk)
    (w : Written b none 0 d data_bytes fc d1) where
  abbrev pub record_of : DirectoryEntry
  record_of = new_entry name ext fc (length data_bytes % 2 ^ 32)

  pub bounds : (root_dir_start b ≤ lba) × (lba < root_dir_start b + root_dir_sectors b)
  bounds = slot_bounds b d lba off v.geometry slot

  pub new_old-Chain :
      (c : ℕ) (bytes : List ℕ)
      → Chain b d c bytes
      → Chain b (put_entry lba off record_of d1) c bytes
  new_old-Chain = old-Chain b d v data_bytes fc d1 w lba off bounds.0 bounds.1 record_of

  module _ (name_8 : length name ≡ 8) (ext_3 : length ext ≡ 3) where
    pub fits : IsEntry record_of
    fits =
        let e = w.first_is in
        let g = v.geometry in
        record {
          name_8 = name_8;
          ext_3 = ext_3;
          time_word = omega arith;
          date_word = omega arith;
          access_word = omega arith;
          high_word = omega arith;
          modified_time_word = omega arith;
          modified_date_word = omega arith;
          low_word = omega (arith, w.inside, g.fat_size);
          size_word = omega arith;
        }

    pub new-IsFile :
        IsLive (get_or name 0 0)
        → find_file b name ext d ≡ none
        → length data_bytes < 2 ^ 32
        → IsFile b name ext data_bytes (put_entry lba off record_of d1)
    unfolding put_entry
    new-IsFile live absent small =
        let same_root = Written_root b d v data_bytes fc d1 w in
        let v1 = Written-IsVolume b d v data_bytes fc d1 w in
        stored-IsFile b d v data_bytes fc d1 w lba off bounds.0 bounds.1 record_of name ext refl
          (omega arith)
          (find_file-put b d1 record_of lba off v1.disk fits live
            (find_empty_root_slot_cong b v.geometry d d1 same_root ∙ slot)
            (find_file_cong b v.geometry d d1 same_root name ext ∙ absent))
