-- ===== src/Fat16/Root/Lookup.antt =====
-- The whole directory: a record that is put into the first free slot is the one that is found.
use sil_os.Prelude.{
  ℕ, zero, suc, ◌+◌, ◌≤◌, ◌<◌, ◌≡◌, ◌≢◌, ◌∙◌, refl, sym, ap, inl, inr, List, none, some, arith, ◌⊎◌,
  Option, Option-cases, overwrite, get_or,
}
use mathlib.Core.Option
use sil_os.Fat16.{Bpb, DirectoryEntry, Sector, Disk, IsDisk, write_block, entry_bytes}
use sil_os.Fat16.Volume.{IsGeometry, root_dir_start, root_dir_sectors}
use sil_os.Fat16.Root.{
  root_sectors_16, empty_slot, empty_slot_from, find_empty_root_slot, Search, end_mark, found,
  not_here, search_sector, search_sector_entry, search_root, search_root_entry, find_file_location,
  find_file,
}
use sil_os.Fat16.Root.Slots.{IsEntry}
use sil_os.Fat16.Root.Sectors.{IsLive, empty_slot-bounds, no_end_mark, search_sector-overwrite}

-- The second component of a location.
abbrev pub entry_at : ℕ × ℕ × DirectoryEntry → DirectoryEntry
entry_at l = l.2

-- What the copy of the inner loop in `find_file` returns for the result of the other one.
abbrev returned_entry : Search → Option (Option DirectoryEntry)
returned_entry end_mark = some none
returned_entry (found offset entry) = some (some entry)
returned_entry not_here = none

search_sector_entry_lem :
    (name ext : List ℕ) (n i : ℕ) (buffer : Sector)
    → search_sector_entry name ext n i buffer ≡ returned_entry (search_sector name ext n i buffer)
unfolding search_sector search_sector_entry
search_sector_entry_lem name ext zero i buffer = refl
search_sector_entry_lem name ext (suc n) i buffer =
    ground (arith, search_sector_entry_lem name ext n (i + 1) buffer)

after_sector :
    (lba : ℕ) (rest : Option DirectoryEntry) (rest' : Option (ℕ × ℕ × DirectoryEntry))
    → rest ≡ Option.map entry_at rest'
    → (r : Search)
    → (elim (returned_entry r) [ some returned ↦ returned | none ↦ rest ])
      ≡ Option.map entry_at (elim r [
        | end_mark ↦ none
        | found offset entry ↦ some (lba, offset, entry)
        | not_here ↦ rest'
      ])
after_sector lba rest rest' e end_mark = refl
after_sector lba rest rest' e (found offset entry) = refl
after_sector lba rest rest' e not_here = e

search_root_entry_lem :
    (name ext : List ℕ) (n s start : ℕ) (d : Disk)
    → search_root_entry name ext n s start d
      ≡ Option.map entry_at (search_root name ext n s start d)
unfolding search_root search_root_entry
search_root_entry_lem name ext zero s start d = refl
search_root_entry_lem name ext (suc n) s start d =
    rw (search_sector_entry_lem name ext 16 0 (d (start + s)), search_root_entry, search_root)
      (after_sector (start + s) (search_root_entry name ext n (s + 1) start d)
        (search_root name ext n (s + 1) start d) (search_root_entry_lem name ext n (s + 1) start d)
        (search_sector name ext 16 0 (d (start + s))))

-- The two copies of the search agree: `find_file` returns the record that `find_file_location`
-- locates.
pub find_file-location :
    (b : Bpb) (name ext : List ℕ) (d : Disk)
    → find_file b name ext d ≡ Option.map entry_at (find_file_location b name ext d)
unfolding find_file find_file_location
find_file-location b name ext d =
    search_root_entry_lem name ext (root_sectors_16 b) 0 (root_dir_start b) d

pub empty_slot_from-bounds :
    (n s start : ℕ) (d : Disk) (lba off : ℕ)
    → empty_slot_from n s start d ≡ some (lba, off)
    → (start + s ≤ lba) × (lba < start + s + n) × (off + 32 ≤ 512)
unfolding empty_slot_from
empty_slot_from-bounds zero s start d lba off e = cc
empty_slot_from-bounds (suc n) s start d lba off e =
    elim (Option-cases (empty_slot 16 0 (d (start + s)))) [
      | inl full ↦
          let rest =
            empty_slot_from-bounds n (s + 1) start d lba off (rw (full, empty_slot_from) at e) in
          omega arith
      | inr (o, free) ↦
          let bounds = empty_slot-bounds 16 0 (d (start + s)) o free in
          let p : some (start + s, o) ≡ some (lba, off) = rw (free, empty_slot_from) at e in
          ground arith
    ]

pub Search-cases :
    (r : Search)
    → (r ≡ end_mark) ⊎ ((r ≡ not_here) ⊎ ((o : ℕ) × (e : DirectoryEntry) × (r ≡ found o e)))
Search-cases end_mark = inl refl
Search-cases not_here = inr (inl refl)
Search-cases (found o e) = inr (inr (o, e, refl))

-- A write elsewhere is not seen by the scan of later sectors, nor by the search.
search_root_cong :
    (name ext : List ℕ) (n s start : ℕ) (d d' : Disk)
    → ((l : ℕ) → start + s ≤ l → l < start + s + n → d' l ≡ d l)
    → search_root name ext n s start d' ≡ search_root name ext n s start d
unfolding search_root
search_root_cong name ext zero s start d d' same = refl
search_root_cong name ext (suc n) s start d d' same =
    let here = same (start + s) (omega arith) (omega arith) in
    elim (Search-cases (search_sector name ext 16 0 (d (start + s)))) [
      | inl stop ↦ rw (here, stop, search_root)
      | inr (inl go) ↦
          rw (here, go, search_root)
            (search_root_cong name ext n (s + 1) start d d'
              λ l a c. same l (omega arith) (omega arith))
      | inr (inr (o, old, hit)) ↦ rw (here, hit, search_root)
    ]

empty_slot_from_cong :
    (n s start : ℕ) (d d' : Disk)
    → ((l : ℕ) → start + s ≤ l → l < start + s + n → d' l ≡ d l)
    → empty_slot_from n s start d' ≡ empty_slot_from n s start d
unfolding empty_slot_from
empty_slot_from_cong zero s start d d' same = refl
empty_slot_from_cong (suc n) s start d d' same =
    let here = same (start + s) (omega arith) (omega arith) in
    elim (Option-cases (empty_slot 16 0 (d (start + s)))) [
      | inl full ↦
          rw (here, full, empty_slot_from)
            (empty_slot_from_cong n (s + 1) start d d' λ l a c. same l (omega arith) (omega arith))
      | inr (o, slot) ↦ rw (here, slot, empty_slot_from)
    ]

pub write_block_ne :
    (lba l : ℕ) (bytes : Sector) (d : Disk) → l ≢ lba → write_block lba bytes d l ≡ d l
unfolding write_block
write_block_ne lba l bytes d ne = ground arith

pub write_block_self : (lba : ℕ) (bytes : Sector) (d : Disk) → write_block lba bytes d lba ≡ bytes
unfolding write_block
write_block_self lba bytes d = ground arith

module _ (e : DirectoryEntry) (h : IsEntry e) (live : IsLive (get_or e.filename 0 0)) where
  open e use {filename, extension}

  pub search_root-put :
      (n s start : ℕ) (d : Disk) (lba off : ℕ)
      → IsDisk d
      → empty_slot_from n s start d ≡ some (lba, off)
      → search_root filename extension n s start d ≡ none
      → search_root filename extension n s start
          (write_block lba (overwrite off (entry_bytes e) (d lba)) d)
        ≡ some (lba, off, e)
  unfolding search_root empty_slot_from
  search_root-put zero s start d lba off disk free absent = cc
  search_root-put (suc n) s start d lba off disk free absent =
      elim (Option-cases (empty_slot 16 0 (d (start + s)))) [
        | inl full ↦
            let later : empty_slot_from n (s + 1) start d ≡ some (lba, off) =
              rw (full, empty_slot_from) at free in
            let bounds = empty_slot_from-bounds n (s + 1) start d lba off later in
            let same =
              write_block_ne lba (start + s) (overwrite off (entry_bytes e) (d lba)) d
                (omega arith) in
            elim (Search-cases (search_sector filename extension 16 0 (d (start + s)))) [
              | inl stop ↦ absurd (no_end_mark filename extension 16 0 (d (start + s)) full stop)
              | inr (inl go) ↦
                  rw (same, go, search_root)
                    (search_root-put n (s + 1) start d lba off disk later
                      (rw (go, search_root) at absent))
              | inr (inr (o, old, hit)) ↦ absurd (cc (rw (hit, search_root) at absent))
            ]
        | inr (o, slot) ↦
            let p : some (start + s, o) ≡ some (lba, off) = rw (slot, empty_slot_from) at free in
            let at_lba : start + s ≡ lba = ground arith in
            let at_off : o ≡ off = ground arith in
            let here : search_sector filename extension 16 0
                  (overwrite o (entry_bytes e) (d (start + s)))
                ≡ found o e =
              search_sector-overwrite e h live 16 0 (d (start + s)) o (disk (start + s))
                (omega arith) slot (λ o' old q. absurd (cc (rw (q, search_root) at absent))) in
            rw (← at_lba, ← at_off, write_block_self (start + s) _ d, here, search_root)
      ]

-- A live record that is put into the first free slot of the directory is found by its name, if
-- the name was not found before.
pub find_file-put :
    (b : Bpb) (d : Disk) (e : DirectoryEntry) (lba off : ℕ)
    → IsDisk d
    → IsEntry e
    → IsLive (get_or e.filename 0 0)
    → find_empty_root_slot b d ≡ some (lba, off)
    → find_file b e.filename e.extension d ≡ none
    → find_file b e.filename e.extension (write_block lba (overwrite off (entry_bytes e) (d lba)) d)
      ≡ some e
unfolding find_empty_root_slot find_file_location
find_file-put b d e lba off disk h live free absent =
    let loc = find_file-location b e.filename e.extension in
    elim (Option-cases (find_file_location b e.filename e.extension d)) [
      | inr (l, hit) ↦
          let q : some (entry_at l) ≡ none =
            sym (ap (Option.map entry_at) hit) ∙ sym (loc d) ∙ absent in
          absurd (cc)
      | inl gone ↦
          loc (write_block lba (overwrite off (entry_bytes e) (d lba)) d)
          ∙ ap (Option.map entry_at) (
              search_root-put e h live (root_sectors_16 b) 0 (root_dir_start b) d lba off disk free
                gone)
    ]

-- The scans look at the directory's sectors alone.
module _ (b : Bpb) (g : IsGeometry b) (d d' : Disk)
    (same : (l : ℕ)
      → root_dir_start b ≤ l
      → l < root_dir_start b + root_dir_sectors b
      → d' l ≡ d l) where
  sectors_16 : root_sectors_16 b ≡ root_dir_sectors b
  sectors_16 = omega (arith, g.root_word)

  pub find_file_location_cong :
      (name ext : List ℕ) → find_file_location b name ext d' ≡ find_file_location b name ext d
  unfolding find_file_location
  find_file_location_cong name ext =
      search_root_cong name ext (root_sectors_16 b) 0 (root_dir_start b) d d'
        λ l a c. same l (omega arith) (omega (arith, sectors_16))

  pub find_file_cong : (name ext : List ℕ) → find_file b name ext d' ≡ find_file b name ext d
  find_file_cong name ext =
      find_file-location b name ext d'
      ∙ ap (Option.map entry_at) (find_file_location_cong name ext)
      ∙ sym (find_file-location b name ext d)

  pub find_empty_root_slot_cong : find_empty_root_slot b d' ≡ find_empty_root_slot b d
  unfolding find_empty_root_slot
  find_empty_root_slot_cong =
      empty_slot_from_cong (root_sectors_16 b) 0 (root_dir_start b) d d'
        λ l a c. same l (omega arith) (omega (arith, sectors_16))
