-- ===== src/Fat16/File/Replaced.antt =====
-- A record that is written over the one that the search found (src/fat16.rs: the end of
-- `overwrite_file`).
use sil_os.Prelude.{
  ℕ, zero, suc, ◌+◌, ◌*◌, ◌≤◌, ◌<◌, ◌≡◌, inl, inr, List, Option, some, arith, ◌==◌, Bool-cases,
  ne→==, length, overwrite, get_or, slice-overwrite_lt, get_or-overwrite_lt,
}
use sil_os.Fat16.{Bpb, DirectoryEntry, Sector, Disk, IsDisk, write_block, entry_bytes, read_entry}
use sil_os.Fat16.Volume.{root_dir_start}
use sil_os.Fat16.Root.{
  root_sectors_16, found, is_match, search_sector, search_root, find_file_location,
}
use sil_os.Fat16.Root.Slots.{
  IsEntry, read_entry-overwrite, is_match-overwrite, first_byte-overwrite,
}
use sil_os.Fat16.Root.Sectors.{IsLive}
use sil_os.Fat16.Root.Lookup.{Search-cases, write_block_ne, write_block_self}
use sil_os.Fat16.File.{put_entry}
use sil_os.Fat16.File.Located.{search_sector-IsFound, name-IsLive}

module _ (e : DirectoryEntry) (h : IsEntry e) (live : IsLive (get_or e.filename 0 0)) where
  open e use {filename, extension}

  -- Where the search found a record, it finds the one that is written there.
  search_sector-replace :
      (n i : ℕ) (buffer : Sector) (off : ℕ) (old : DirectoryEntry)
      → length buffer ≡ 512
      → i + n ≤ 16
      → search_sector filename extension n i buffer ≡ found off old
      → search_sector filename extension n i (overwrite off (entry_bytes e) buffer) ≡ found off e
  unfolding search_sector
  search_sector-replace zero i buffer off old size small f = cc
  search_sector-replace (suc n) i buffer off old size small f =
      elim (Bool-cases (get_or buffer (i * 32) 0 == 0x00)) [
        | inl z ↦ cc (rw (z, search_sector) at f)
        | inr z ↦
            let over = overwrite off (entry_bytes e) buffer in
            let byte = get_or-overwrite_lt off (entry_bytes e) buffer (i * 32) 0 in
            let rest = search_sector filename extension n (i + 1) buffer in
            let later = λ (f' : rest ≡ found off old).
              search_sector-IsFound filename extension n (i + 1) buffer off old f' in
            elim (Bool-cases (get_or buffer (i * 32) 0 == 0xE5)) [
              | inl x ↦
                  let f' : rest ≡ found off old = rw (z, x, search_sector) at f in
                  let r = later f' in
                  rw (byte (omega (arith, r.above)), z, x)
                    (search_sector-replace n (i + 1) buffer off old size (omega arith) f')
              | inr x ↦ elim (Bool-cases (is_match filename extension buffer (i * 32))) [
                | inl m ↦
                    let p : found (i * 32) (read_entry buffer (i * 32)) ≡ found off old =
                      rw (z, x, m, search_sector) at f in
                    let here : i * 32 ≡ off = cc in
                    let inside : i * 32 + 32 ≤ length buffer = omega arith in
                    rw (
                      ← here,
                      first_byte-overwrite e h buffer (i * 32) inside,
                      ne→== (get_or filename 0 0) 0x00 live.0,
                      ne→== (get_or filename 0 0) 0xE5 live.1,
                      is_match-overwrite e h buffer (i * 32) inside,
                      read_entry-overwrite e h buffer (i * 32) inside,
                    )
                | inr o ↦
                    let f' : rest ≡ found off old = rw (z, x, o, search_sector) at f in
                    let r = later f' in
                    let name =
                      slice-overwrite_lt off (entry_bytes e) buffer (i * 32) 8
                        (omega (arith, r.above)) in
                    let ext =
                      slice-overwrite_lt off (entry_bytes e) buffer (i * 32 + 8) 3
                        (omega (arith, r.above)) in
                    rw (byte (omega (arith, r.above)), z, x, name, ext, o)
                      (search_sector-replace n (i + 1) buffer off old size (omega arith) f')
              ]
            ]
      ]

  search_root-replace :
      (n s start : ℕ) (d : Disk) (lba off : ℕ) (old : DirectoryEntry)
      → IsDisk d
      → search_root filename extension n s start d ≡ some (lba, off, old)
      → (start + s ≤ lba)
        × (lba < start + s + n)
        × (search_root filename extension n s start
              (write_block lba (overwrite off (entry_bytes e) (d lba)) d)
            ≡ some (lba, off, e))
  unfolding search_root
  search_root-replace zero s start d lba off old disk f = cc
  search_root-replace (suc n) s start d lba off old disk f =
      elim (Search-cases (search_sector filename extension 16 0 (d (start + s)))) [
        | inl stop ↦ cc (rw (stop, search_root) at f)
        | inr (inl go) ↦
            let (low, high, eq) =
              search_root-replace n (s + 1) start d lba off old disk (rw (go, search_root) at f) in
            let same =
              write_block_ne lba (start + s) (overwrite off (entry_bytes e) (d lba)) d
                (omega arith) in
            (omega arith, omega arith, rw (same, go, search_root) eq)
        | inr (inr (o, entry, hit)) ↦
            let p : ◌≡◌ {A = Option (ℕ × ℕ × DirectoryEntry)} (some (start + s, o, entry))
                (some (lba, off, old)) =
              rw (hit, search_root) at f in
            let at_lba : start + s ≡ lba = ground arith in
            let at_off : o ≡ off = ground arith in
            let here =
              search_sector-replace 16 0 (d (start + s)) o entry (disk (start + s)) (omega arith)
                hit in
            (
              omega arith,
              omega arith,
              rw (← at_lba, ← at_off, write_block_self (start + s) _ d, here, search_root),
            )
      ]

module _ (b : Bpb) (name ext : List ℕ) (d : Disk) (lba off : ℕ) (old : DirectoryEntry)
    (f : find_file_location b name ext d ≡ some (lba, off, old)) where
  -- A record with the same names that is written over the one that was found is found in its place.
  pub put-located :
      IsDisk d
      → (e : DirectoryEntry) → IsEntry e
      → e.filename ≡ name
      → e.extension ≡ ext
      → find_file_location b name ext (put_entry lba off e d) ≡ some (lba, off, e)
  unfolding find_file_location put_entry
  put-located disk e h n x =
      let f' : find_file_location b e.filename e.extension d ≡ some (lba, off, old) =
        simp (n, x) f in
      let (low, high, eq) =
        search_root-replace e h (rw n (name-IsLive b name ext d lba off old f)) (root_sectors_16 b)
          0 (root_dir_start b) d lba off old disk f' in
      simp (n, x) at eq
