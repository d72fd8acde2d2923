-- ===== src/Fat16/File/Records.antt =====
-- The records of the root directory as a whole: what holds of each of them (src/fat16.rs).
use sil_os.Prelude.{
  ℕ, zero, suc, ◌+◌, ◌*◌, ◌≤◌, ◌<◌, ◌≡◌, ◌⊎◌, ◌∙◌, sym, ap, inl, inr, List, arith, Option, some,
  ◌==◌, ◌||◌, Bool-cases, Option-cases, ==→eq, ==→ne, ltb, tests, u16_from_le, u32_from_le, length,
  get_or, take, drop, slice, overwrite, slice-take, slice-overwrite_lt, drop-overwrite_ge,
  get_or-drop, get_or-take, get_or-drop-take,
}
use sil_os.Fat16.{Bpb, DirectoryEntry, Sector, Disk, IsDisk, read_entry, entry_bytes, entry_of}
use sil_os.Fat16.Volume.{IsGeometry, root_dir_start, root_dir_sectors}
use sil_os.Fat16.Table.Closed.{IsLink}
use sil_os.Fat16.Root.{
  root_sectors_16, empty_slot, empty_slot_from, find_empty_root_slot, find_file_location,
}
use sil_os.Fat16.Root.Slots.{IsEntry, length-entry_bytes, read_entry-overwrite}
use sil_os.Fat16.Root.Lookup.{write_block_ne, write_block_self}
use sil_os.Fat16.File.{put_entry}
use sil_os.Fat16.File.Located.{located-IsFound, found_bounds}

-- A record whose fields fit and that names a cluster of the table.
abbrev pub IsRecord : Bpb → DirectoryEntry → Type 0
IsRecord b e = IsEntry e × IsLink b e.cluster_low

-- The 32 bytes at `i * 32`: free, or a record.
abbrev pub IsSlot : Bpb → Sector → ℕ → Type 0
IsSlot b buffer i = (get_or buffer (i * 32) 0 ≡ 0x00) ⊎ IsRecord b (read_entry buffer (i * 32))

abbrev pub IsDirectory : Bpb → Disk → Type 0
IsDirectory b d =
    (l : ℕ)
    → root_dir_start b ≤ l
    → l < root_dir_start b + root_dir_sectors b
    → (i : ℕ) → i < 16
    → IsSlot b (d l) i

-- A record lies at a multiple of its size.
abbrev pub IsPlace : ℕ → Type 0
IsPlace off = (i : ℕ) × (i < 16) × (i * 32 ≡ off)

empty_slot-IsPlace :
    (n i : ℕ) (buffer : Sector) (off : ℕ)
    → i + n ≤ 16
    → empty_slot n i buffer ≡ some off
    → IsPlace off
unfolding empty_slot
empty_slot-IsPlace zero i buffer off l e = cc
empty_slot-IsPlace (suc n) i buffer off l e =
    elim (Bool-cases (get_or buffer (i * 32) 0 == 0x00 || get_or buffer (i * 32) 0 == 0xE5)) [
      | inl hit ↦ (i, omega arith, cc (rw (hit, empty_slot) at e))
      | inr miss ↦
          empty_slot-IsPlace n (i + 1) buffer off (omega arith) (rw (miss, empty_slot) at e)
    ]

empty_slot_from-IsPlace :
    (n s start : ℕ) (d : Disk) (lba off : ℕ)
    → empty_slot_from n s start d ≡ some (lba, off)
    → IsPlace off
unfolding empty_slot_from
empty_slot_from-IsPlace zero s start d lba off e = cc
empty_slot_from-IsPlace (suc n) s start d lba off e =
    elim (Option-cases (empty_slot 16 0 (d (start + s)))) [
      | inl full ↦
          empty_slot_from-IsPlace n (s + 1) start d lba off (rw (full, empty_slot_from) at e)
      | inr (o, free) ↦
          let p : ◌≡◌ {A = Option (ℕ × ℕ)} (some (start + s, o)) (some (lba, off)) =
            rw (free, empty_slot_from) at e in
          let same : o ≡ off = ground arith in
          empty_slot-IsPlace 16 0 (d (start + s)) off (omega arith) (rw same at free)
    ]

-- A record is read from its 32 bytes.
entry_32 : List ℕ → DirectoryEntry
unfolding entry_of
entry_32 r = entry_of (take 8 r) (slice r 8 3) (drop 11 r)

entry_32-take : (r : List ℕ) → entry_32 (take 32 r) ≡ entry_32 r
unfolding entry_32
entry_32-take r =
    let g = λ (j : ℕ) (l : 11 + j < 32). get_or-drop-take 11 32 j r 0 l in
    let name : take 8 (take 32 r) ≡ take 8 r = slice-take 0 8 32 r (omega arith) in
    let ext : slice (take 32 r) 8 3 ≡ slice r 8 3 = slice-take 8 3 32 r (omega arith) in
    λ i. record {
      filename = name i;
      extension = ext i;
      attributes = g 0 (omega arith) i;
      reserved = g 1 (omega arith) i;
      creation_time_ms = g 2 (omega arith) i;
      creation_time = u16_from_le (g 3 (omega arith) i) (g 4 (omega arith) i);
      creation_date = u16_from_le (g 5 (omega arith) i) (g 6 (omega arith) i);
      last_access_date = u16_from_le (g 7 (omega arith) i) (g 8 (omega arith) i);
      cluster_high = u16_from_le (g 9 (omega arith) i) (g 10 (omega arith) i);
      modified_time = u16_from_le (g 11 (omega arith) i) (g 12 (omega arith) i);
      modified_date = u16_from_le (g 13 (omega arith) i) (g 14 (omega arith) i);
      cluster_low = u16_from_le (g 15 (omega arith) i) (g 16 (omega arith) i);
      file_size =
          u32_from_le (g 17 (omega arith) i) (g 18 (omega arith) i) (g 19 (omega arith) i)
            (g 20 (omega arith) i);
    }

read_entry_32 : (buffer : Sector) (off : ℕ) → read_entry buffer off ≡ entry_32 (slice buffer off 32)
unfolding read_entry entry_32
read_entry_32 buffer off = sym (entry_32-take (drop off buffer))

-- Bytes that are written elsewhere in the sector do not change a record, nor its first byte.
module _ (off : ℕ) (src : List ℕ) (buffer : Sector) (at_off : ℕ)
    (apart : (at_off + 32 ≤ off) ⊎ (off + length src ≤ at_off)) where
  slice_other : slice (overwrite off src buffer) at_off 32 ≡ slice buffer at_off 32
  slice_other = elim apart [
    | inl before ↦ slice-overwrite_lt off src buffer at_off 32 before
    | inr behind ↦ ap (take 32) (drop-overwrite_ge off src buffer at_off behind)
  ]

  read_entry_other : read_entry (overwrite off src buffer) at_off ≡ read_entry buffer at_off
  read_entry_other =
      read_entry_32 (overwrite off src buffer) at_off
      ∙ ap entry_32 slice_other
      ∙ sym (read_entry_32 buffer at_off)

  first_byte_other : get_or (overwrite off src buffer) at_off 0 ≡ get_or buffer at_off 0
  first_byte_other =
      get_or-drop at_off (overwrite off src buffer) 0
      ∙ sym (get_or-take 31 (drop at_off (overwrite off src buffer)) 0)
      ∙ ap (λ r. get_or r 0 0) slice_other
      ∙ get_or-take 31 (drop at_off buffer) 0
      ∙ sym (get_or-drop at_off buffer 0)

-- Writing a record at a place of a sector keeps every slot of it.
IsSlot-overwrite :
    (b : Bpb) (e : DirectoryEntry) (j : ℕ) (buffer : Sector)
    → length buffer ≡ 512
    → IsRecord b e
    → j < 16
    → ((i : ℕ) → i < 16 → IsSlot b buffer i)
    → (i : ℕ) → i < 16
    → IsSlot b (overwrite (j * 32) (entry_bytes e) buffer) i
IsSlot-overwrite b e j buffer size r l slots i m =
    let n = length-entry_bytes e r.0 in
    elim (Bool-cases (i == j)) [
      | inl same ↦
          let eq : i ≡ j = ==→eq i j same in
          inr (rw (eq, read_entry-overwrite e r.0 buffer (j * 32) (omega arith)) r)
      | inr other ↦
          let ne = ==→ne i j other in
          let apart : (i * 32 + 32 ≤ j * 32) ⊎ (j * 32 + length (entry_bytes e) ≤ i * 32) =
            elim (Bool-cases (ltb i j)) [
              | inl below ↦ inl (omega (tests))
              | inr above ↦ inr (omega (tests))
            ] in
          rw
            (
              read_entry_other (j * 32) (entry_bytes e) buffer (i * 32) apart,
              first_byte_other (j * 32) (entry_bytes e) buffer (i * 32) apart,
            )
            (slots i m)
    ]

-- A record that is put at a place of the directory keeps the directory.
pub put-IsDirectory :
    (b : Bpb) (d : Disk) (lba off : ℕ) (e : DirectoryEntry)
    → IsDisk d
    → IsPlace off
    → IsRecord b e
    → IsDirectory b d
    → IsDirectory b (put_entry lba off e d)
unfolding put_entry
put-IsDirectory b d lba off e h (j, m, at_off) r dir l low high i k = elim (Bool-cases (l == lba)) [
  | inl same ↦
      rw (← ==→eq l lba same, write_block_self l _ d, ← at_off)
        (IsSlot-overwrite b e j (d l) (h l) r m (dir l low high) i k)
  | inr other ↦ rw (write_block_ne lba l _ d (==→ne l lba other)) (dir l low high i k)
]

-- The directory is that of another disk with the same sectors there.
pub IsDirectory-cong :
    (b : Bpb) (d d' : Disk)
    → ((l : ℕ) → root_dir_start b ≤ l → l < root_dir_start b + root_dir_sectors b → d' l ≡ d l)
    → IsDirectory b d
    → IsDirectory b d'
IsDirectory-cong b d d' same dir l low high = rw (same l low high) (dir l low high)

pub slot-IsPlace :
    (b : Bpb) (d : Disk) (lba off : ℕ) → find_empty_root_slot b d ≡ some (lba, off) → IsPlace off
unfolding find_empty_root_slot
slot-IsPlace b d lba off =
    empty_slot_from-IsPlace (root_sectors_16 b) 0 (root_dir_start b) d lba off

-- What is found under a name is at a place of the directory, and a record.
pub found-IsPlace :
    (b : Bpb) (name ext : List ℕ) (d : Disk) (lba off : ℕ) (old : DirectoryEntry)
    → find_file_location b name ext d ≡ some (lba, off, old)
    → IsPlace off
found-IsPlace b name ext d lba off old f =
    let r = located-IsFound b name ext d lba off old f in
    (r.index, omega (arith, r.below, r.index_is), r.index_is)

pub found-IsRecord :
    (b : Bpb) (name ext : List ℕ) (d : Disk) (lba off : ℕ) (old : DirectoryEntry)
    → IsGeometry b
    → IsDirectory b d
    → find_file_location b name ext d ≡ some (lba, off, old)
    → IsRecord b old
found-IsRecord b name ext d lba off old g dir f =
    let (low, high) = found_bounds b name ext d lba off old f g in
    let r = located-IsFound b name ext d lba off old f in
    elim (dir lba low high r.index (omega (arith, r.below, r.index_is))) [
      | inl free ↦ absurd (r.live.0 (rw r.index_is at free))
      | inr record_there ↦ rw r.record_is (rw r.index_is at record_there)
    ]
