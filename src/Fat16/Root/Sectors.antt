-- ===== src/Fat16/Root/Sectors.antt =====
-- One directory sector: the search finds the record that is written to the first free slot.
use sil_os.Prelude.{
  ℕ, zero, suc, ◌+◌, ◌*◌, ◌≤◌, ◌≡◌, ◌≢◌, false, inl, inr, List, none, some, arith, ◌==◌, ◌||◌,
  Bool-cases, ne→==, length, overwrite, slice, get_or, slice-overwrite_lt, get_or-overwrite_lt,
}
use sil_os.Fat16.{DirectoryEntry, Sector, entry_bytes, read_entry}
use sil_os.Fat16.Root.{empty_slot, end_mark, found, is_match, search_sector}
use sil_os.Fat16.Root.Slots.{
  IsEntry, read_entry-overwrite, is_match-overwrite, first_byte-overwrite,
}

-- The first byte of a record in use.
abbrev pub IsLive : ℕ → Type 0
IsLive byte = (byte ≢ 0x00) × (byte ≢ 0xE5)

pub empty_slot-bounds :
    (n i : ℕ) (buffer : Sector) (off : ℕ)
    → empty_slot n i buffer ≡ some off
    → (i * 32 ≤ off) × (off + 32 ≤ (i + n) * 32)
unfolding empty_slot
empty_slot-bounds zero i buffer off e = cc
empty_slot-bounds (suc n) i buffer off e = ground (arith, empty_slot-bounds n (i + 1) buffer off)

-- Without a free record the search meets no end mark.
pub no_end_mark :
    (name ext : List ℕ) (n i : ℕ) (buffer : Sector)
    → empty_slot n i buffer ≡ none
    → search_sector name ext n i buffer ≢ end_mark
unfolding empty_slot search_sector
no_end_mark name ext zero i buffer e m = cc
no_end_mark name ext (suc n) i buffer e m = ground (arith, no_end_mark name ext n (i + 1) buffer)

module _ (e : DirectoryEntry) (h : IsEntry e) (live : IsLive (get_or e.filename 0 0)) where
  open e use {filename, extension}

  -- If the name was not found before, it is found where the record was put.
  pub search_sector-overwrite :
      (n i : ℕ) (buffer : Sector) (off : ℕ)
      → length buffer ≡ 512
      → i + n ≤ 16
      → empty_slot n i buffer ≡ some off
      → ((o : ℕ) (old : DirectoryEntry) → search_sector filename extension n i buffer ≢ found o old)
      → search_sector filename extension n i (overwrite off (entry_bytes e) buffer) ≡ found off e
  unfolding empty_slot search_sector
  search_sector-overwrite zero i buffer off size small free absent = cc
  search_sector-overwrite (suc n) i buffer off size small free absent =
      elim (Bool-cases (get_or buffer (i * 32) 0 == 0x00 || get_or buffer (i * 32) 0 == 0xE5)) [
        | inl hit ↦
            let here : i * 32 ≡ off = cc (rw (hit, empty_slot) at free) in
            let inside : i * 32 + 32 ≤ length buffer = omega arith in
            rw (
              ← here,
              first_byte-overwrite e h buffer (i * 32) inside,
              ne→== (get_or filename 0 0) 0x00 live.0,
              ne→== (get_or filename 0 0) 0xE5 live.1,
              is_match-overwrite e h buffer (i * 32) inside,
              read_entry-overwrite e h buffer (i * 32) inside,
            )
        | inr miss ↦
            let b0 : (get_or buffer (i * 32) 0 == 0x00) ≡ false = ground arith in
            let b5 : (get_or buffer (i * 32) 0 == 0xE5) ≡ false = ground arith in
            let later : empty_slot n (i + 1) buffer ≡ some off = rw (miss, empty_slot) at free in
            let bounds = empty_slot-bounds n (i + 1) buffer off later in
            let name : slice (overwrite off (entry_bytes e) buffer) (i * 32) 8
                ≡ slice buffer (i * 32) 8 =
              slice-overwrite_lt off (entry_bytes e) buffer (i * 32) 8 (omega arith) in
            let ext : slice (overwrite off (entry_bytes e) buffer) (i * 32 + 8) 3
                ≡ slice buffer (i * 32 + 8) 3 =
              slice-overwrite_lt off (entry_bytes e) buffer (i * 32 + 8) 3 (omega arith) in
            let byte = get_or-overwrite_lt off (entry_bytes e) buffer (i * 32) 0 (omega arith) in
            elim (Bool-cases (is_match filename extension buffer (i * 32))) [
              | inl same ↦ absurd (absent (i * 32) (read_entry buffer (i * 32)) (rw (b0, b5, same)))
              | inr other ↦
                  rw (byte, b0, b5, name, ext, other)
                    (search_sector-overwrite n (i + 1) buffer off size (omega arith) later
                      (λ o old q. absent o old (rw (b0, b5, other) q)))
            ]
      ]
