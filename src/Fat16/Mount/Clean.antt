-- ===== src/Fat16/Mount/Clean.antt =====
-- The table and the directory of a formatted volume (src/fat16.rs: `format_drive`).
use sil_os.Prelude.{
  ℕ, zero, suc, ◌+◌, ◌-◌, ◌*◌, ◌/◌, ◌%◌, ◌≤◌, ◌<◌, ◌≡◌, ◌⊎◌, ◌∙◌, refl, ap, inl, inr, arith, ◌==◌,
  Bool-cases, ==→eq, ==→ne, ltb, tests, get_or, replicate, set, get_or-set_ne,
}
use sil_os.Fat16.{Sector, Disk, IsDisk, write_block}
use sil_os.Fat16.Volume.{entries}
use sil_os.Fat16.Data.{zero_sector}
use sil_os.Fat16.Table.{get_fat_entry, word_at}
use sil_os.Fat16.Table.Closed.{IsClosed}
use sil_os.Fat16.Root.Lookup.{write_block_ne, write_block_self}
use sil_os.Fat16.File.Records.{IsDirectory}
use sil_os.Fat16.Sound.{IsSound}
use sil_os.Fat16.Mount.{
  format_bpb, boot_sector, fat_sector, format_range, format_fats, format_drive,
}
use sil_os.Fat16.Mount.Formatted.{entry_0, entry_1, format_drive-IsVolume}

get_or-replicate : (n i : ℕ) → get_or (replicate {A = ℕ} n 0) i 0 ≡ 0
get_or-replicate zero i = refl
get_or-replicate (suc n) zero = refl
get_or-replicate (suc n) (suc i) = get_or-replicate n i

get_or-zero_sector : (i : ℕ) → get_or zero_sector i 0 ≡ 0
unfolding zero_sector
get_or-zero_sector i = get_or-replicate 512 i

-- What a range that was formatted holds, and what lies outside.
format_range_other :
    (sector : ℕ → Sector) (n offset start : ℕ) (d : Disk) (l : ℕ)
    → (l < start + offset) ⊎ (start + offset + n ≤ l)
    → format_range sector n offset start d l ≡ d l
unfolding format_range
format_range_other sector zero offset start d l out = refl
format_range_other sector (suc n) offset start d l out =
    format_range_other sector n (offset + 1) start _ l (omega arith)
    ∙ write_block_ne (start + offset) l (sector offset) d (omega arith)

format_range_in :
    (sector : ℕ → Sector) (n offset start : ℕ) (d : Disk) (i : ℕ)
    → offset ≤ i
    → i < offset + n
    → format_range sector n offset start d (start + i) ≡ sector i
unfolding format_range
format_range_in sector zero offset start d i low high = absurd (omega arith)
format_range_in sector (suc n) offset start d i low high = elim (Bool-cases (i == offset)) [
  | inl same ↦ rw (==→eq i offset same) (
      format_range_other sector n (offset + 1) start _ (start + offset) (omega arith)
      ∙ write_block_self (start + offset) (sector offset) d)
  | inr later ↦
      format_range_in sector n (offset + 1) start _ i (omega (arith, ==→ne i offset later))
        (omega arith)
]

-- The first copy of the table lies at the sectors 1 to 64, and the directory at 129 to 160.
table_sector : (d : Disk) (i : ℕ) → i < 64 → format_drive d (1 + i) ≡ fat_sector i
unfolding format_drive format_fats
table_sector d i l =
    let booted = write_block 0 boot_sector d in
    let first = format_range fat_sector 64 0 1 booted in
    format_range_other (λ _. zero_sector) 32 0 129 (format_range fat_sector 64 0 65 first) (1 + i)
      (omega arith)
    ∙ format_range_other fat_sector 64 0 65 first (1 + i) (omega arith)
    ∙ format_range_in fat_sector 64 0 1 booted i (omega arith) l

directory_sector : (d : Disk) (i : ℕ) → i < 32 → format_drive d (129 + i) ≡ zero_sector
unfolding format_drive
directory_sector d i l =
    format_range_in (λ _. zero_sector) 32 0 129 (format_fats 2 0 1 (write_block 0 boot_sector d)) i
      (omega arith) l

-- Behind the four bytes of the reserved entries a sector of the table holds zeros.
get_or-fat_sector : (i j : ℕ) → (0 < i) ⊎ (4 ≤ j) → get_or (fat_sector i) j 0 ≡ 0
unfolding fat_sector
get_or-fat_sector i j h = elim (Bool-cases (i == 0)) [
  | inr nz ↦ rw nz (get_or-zero_sector j)
  | inl z ↦
      let e = ==→eq i 0 z in
      rw z (
        get_or-set_ne (set (set (set zero_sector 0 0xF8) 1 0xFF) 2 0xFF) 3 j 0xFF 0 (omega arith)
        ∙ get_or-set_ne (set (set zero_sector 0 0xF8) 1 0xFF) 2 j 0xFF 0 (omega arith)
        ∙ get_or-set_ne (set zero_sector 0 0xF8) 1 j 0xFF 0 (omega arith)
        ∙ get_or-set_ne zero_sector 0 j 0xF8 0 (omega arith)
        ∙ get_or-zero_sector j)
]

entry_free :
    (d : Disk) (k : ℕ)
    → 2 ≤ k
    → k < entries format_bpb
    → get_fat_entry format_bpb k (format_drive d) ≡ 0
unfolding get_fat_entry
entry_free d k two inside =
    let i = k * 2 / 512 in
    let j = k * 2 % 512 in
    let behind : (0 < i) ⊎ (4 ≤ j) = omega arith in
    ap (λ s. word_at s j) (table_sector d i (omega arith))
    ∙ omega (arith, get_or-fat_sector i j behind, get_or-fat_sector i (j + 1) (omega arith))

format_drive-IsClosed : (d : Disk) → IsClosed format_bpb (format_drive d)
format_drive-IsClosed d k inside = elim (Bool-cases (ltb k 2)) [
  | inr free ↦ inl (omega (tests, entry_free d k))
  | inl reserved ↦ elim (Bool-cases (k == 0)) [
    | inl z ↦ rw (==→eq k 0 z, entry_0 d) (inr (omega arith))
    | inr nz ↦
        let one : k ≡ 1 = omega (tests, ==→ne k 0 nz) in rw (one, entry_1 d) (inr (omega arith))
  ]
]

format_drive-IsDirectory : (d : Disk) → IsDirectory format_bpb (format_drive d)
format_drive-IsDirectory d l low high i m =
    let e : l ≡ 129 + (l - 129) = omega arith in
    inl (
      ap (λ k. get_or (format_drive d k) (i * 32) 0) e
      ∙ ap (λ s. get_or s (i * 32) 0) (directory_sector d (l - 129) (omega arith))
      ∙ get_or-zero_sector (i * 32))

-- Formatting any disk of 512-byte sectors makes a sound volume.
pub format_drive-IsSound : (d : Disk) → IsDisk d → IsSound format_bpb (format_drive d)
format_drive-IsSound d h = record {
  volume = format_drive-IsVolume d h;
  some_table = omega arith;
  closed = format_drive-IsClosed d;
  directory = format_drive-IsDirectory d;
}
