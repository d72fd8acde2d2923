-- ===== src/Fat16/File/Located.antt =====
-- What a search of the directory finds: its place, its names and its bytes (src/fat16.rs).
use sil_os.Prelude.{
  ℕ, zero, suc, ◌+◌, ◌*◌, ◌≤◌, ◌<◌, ◌≡◌, ◌∙◌, refl, sym, ap, true, inl, inr, List, Option, some,
  arith, ◌==◌, Bool-cases, ==→ne, drop-drop, slice, take, drop, get_or, get_or-drop, get_or-take,
  eq_of_same_bytes,
}
use sil_os.Fat16.{Bpb, DirectoryEntry, Sector, Disk, read_entry}
use sil_os.Fat16.Volume.{IsGeometry, root_dir_start, root_dir_sectors}
use sil_os.Fat16.Root.{
  root_sectors_16, found, is_match, search_sector, search_root, find_file_location,
}
use sil_os.Fat16.Root.Sectors.{IsLive}
use sil_os.Fat16.Root.Lookup.{Search-cases}

-- What the search says of a record that it found at `off`.
pub record IsFound (name ext : List ℕ) (low high : ℕ) (buffer : Sector) (off : ℕ)
    (old : DirectoryEntry) : Type 0 where
  pub index : ℕ
  pub index_is : index * 32 ≡ off
  pub above : low ≤ off
  pub below : off + 32 ≤ high
  pub live : IsLive (get_or buffer off 0)
  pub matches : is_match name ext buffer off ≡ true
  pub record_is : old ≡ read_entry buffer off

widen :
    (name ext : List ℕ) (n i : ℕ) (buffer : Sector) (off : ℕ) (old : DirectoryEntry)
    → IsFound name ext ((i + 1) * 32) ((i + 1 + n) * 32) buffer off old
    → IsFound name ext (i * 32) ((i + suc n) * 32) buffer off old
widen name ext n i buffer off old r = record {
  index = r.index;
  index_is = r.index_is;
  above = omega (arith, r.above);
  below = omega (arith, r.below);
  live = r.live;
  matches = r.matches;
  record_is = r.record_is;
}

pub search_sector-IsFound :
    (name ext : List ℕ) (n i : ℕ) (buffer : Sector) (off : ℕ) (old : DirectoryEntry)
    → search_sector name ext n i buffer ≡ found off old
    → IsFound name ext (i * 32) ((i + n) * 32) buffer off old
unfolding search_sector
search_sector-IsFound name ext zero i buffer off old h = cc
search_sector-IsFound name ext (suc n) i buffer off old h =
    elim (Bool-cases (get_or buffer (i * 32) 0 == 0x00)) [
      | inl z ↦ cc (rw (z, search_sector) at h)
      | inr z ↦ elim (Bool-cases (get_or buffer (i * 32) 0 == 0xE5)) [
        | inl x ↦ widen name ext n i buffer off old (
            search_sector-IsFound name ext n (i + 1) buffer off old (rw (z, x, search_sector) at h))
        | inr x ↦ elim (Bool-cases (is_match name ext buffer (i * 32))) [
          | inl m ↦
              let p : found (i * 32) (read_entry buffer (i * 32)) ≡ found off old =
                rw (z, x, m, search_sector) at h in
              let here : i * 32 ≡ off = cc in
              record {
                index = i;
                index_is = here;
                above = omega arith;
                below = omega arith;
                live = rw (← here) (==→ne _ _ z, ==→ne _ _ x);
                matches = rw (← here) m;
                record_is = rw (← here) (cc);
              }
          | inr o ↦ widen name ext n i buffer off old (
              search_sector-IsFound name ext n (i + 1) buffer off old
                (rw (z, x, o, search_sector) at h))
        ]
      ]
    ]

-- The names of the record are those that were searched for.
module _ (name ext : List ℕ) (low high : ℕ) (buffer : Sector) (off : ℕ) (old : DirectoryEntry)
    (f : IsFound name ext low high buffer off old) where
  both : (slice buffer off 8 ≡ name) × (slice buffer (off + 8) 3 ≡ ext)
  both =
      let m = f.matches in
      (
        eq_of_same_bytes (slice buffer off 8) name (ground arith),
        eq_of_same_bytes (slice buffer (off + 8) 3) ext (ground arith),
      )

  IsFound-filename : old.filename ≡ name
  unfolding read_entry
  IsFound-filename = ap (λ (e : DirectoryEntry). e.filename) f.record_is ∙ both.0

  IsFound-extension : old.extension ≡ ext
  unfolding read_entry
  IsFound-extension =
      ap (λ (e : DirectoryEntry). e.extension) f.record_is
      ∙ ap (take 3) (drop-drop off 8 (off + 8) buffer refl)
      ∙ both.1

  IsFound-IsLive : IsLive (get_or name 0 0)
  IsFound-IsLive =
      let same : get_or buffer off 0 ≡ get_or name 0 0 =
        get_or-drop off buffer 0
        ∙ sym (get_or-take 7 (drop off buffer) 0)
        ∙ ap (λ l. get_or l 0 0) both.0 in
      rw same at f.live

search_root-IsFound :
    (name ext : List ℕ) (n s start : ℕ) (d : Disk) (lba off : ℕ) (old : DirectoryEntry)
    → search_root name ext n s start d ≡ some (lba, off, old)
    → (start + s ≤ lba) × (lba < start + s + n) × IsFound name ext 0 512 (d lba) off old
unfolding search_root
search_root-IsFound name ext zero s start d lba off old f = cc
search_root-IsFound name ext (suc n) s start d lba off old f =
    elim (Search-cases (search_sector name ext 16 0 (d (start + s)))) [
      | inl stop ↦ cc (rw (stop, search_root) at f)
      | inr (inl go) ↦
          let (low, high, there) =
            search_root-IsFound name ext n (s + 1) start d lba off old
              (rw (go, search_root) at f) in
          (omega arith, omega arith, there)
      | inr (inr (o, entry, hit)) ↦
          let p : ◌≡◌ {A = Option (ℕ × ℕ × DirectoryEntry)} (some (start + s, o, entry))
              (some (lba, off, old)) =
            rw (hit, search_root) at f in
          let at_lba : start + s ≡ lba = ground arith in
          let at_off : o ≡ off = ground arith in
          let at_old : entry ≡ old = cc in
          (
            omega arith,
            omega arith,
            rw (← at_lba, ← at_off, ← at_old)
                (search_sector-IsFound name ext 16 0 (d (start + s)) o entry hit),
          )
    ]

module _ (b : Bpb) (name ext : List ℕ) (d : Disk) (lba off : ℕ) (old : DirectoryEntry)
    (f : find_file_location b name ext d ≡ some (lba, off, old)) where
  located :
      (root_dir_start b + 0 ≤ lba)
      × (lba < root_dir_start b + 0 + root_sectors_16 b)
      × IsFound name ext 0 512 (d lba) off old
  unfolding find_file_location
  located = search_root-IsFound name ext (root_sectors_16 b) 0 (root_dir_start b) d lba off old f

  pub located-IsFound : IsFound name ext 0 512 (d lba) off old
  located-IsFound = located.2

  pub found_bounds :
      IsGeometry b → (root_dir_start b ≤ lba) × (lba < root_dir_start b + root_dir_sectors b)
  found_bounds g =
      let l = located.0 in let h = located.1 in (omega arith, omega (arith, g.root_word))

  pub name-IsLive : IsLive (get_or name 0 0)
  name-IsLive = IsFound-IsLive name ext 0 512 (d lba) off old located-IsFound

  pub names_there : (old.filename ≡ name) × (old.extension ≡ ext)
  names_there = (
    IsFound-filename name ext 0 512 (d lba) off old located-IsFound,
    IsFound-extension name ext 0 512 (d lba) off old located-IsFound,
  )
