-- ===== src/Fat16/Table/Entries.antt =====
-- Reading back FAT entries that were written.
use sil_os.Prelude.{
  ℕ, ◌+◌, ◌*◌, ◌/◌, ◌%◌, ◌^◌, ◌<◌, ◌≡◌, ◌≢◌, ◌∙◌, inl, inr, arith, ◌==◌, Bool-cases, set,
  get_or-set_self, get_or-set_ne, length, length-set, low_byte, high_byte,
}
use sil_os.Fat16.{Bpb, Sector, Disk, IsDisk, write_block}
use sil_os.Fat16.Table.{word_at, get_fat_entry, set_fat_entry}

module _ (buffer : Sector) (i v : ℕ) where
  word : Sector
  word = set (set buffer i (low_byte v)) (i + 1) (high_byte v)

  word_at_self : v < 2 ^ 16 → i + 1 < length buffer → word_at word i ≡ v
  unfolding word
  word_at_self small inside = omega (
    arith,
    get_or-set_ne (set buffer i (low_byte v)) (i + 1) i (high_byte v) 0 (omega arith),
    get_or-set_self buffer i (low_byte v) 0 (omega arith),
    get_or-set_self (set buffer i (low_byte v)) (i + 1) (high_byte v) 0
        (omega (arith, length-set buffer i (low_byte v))),
  )

  word_at_ne : (j : ℕ) → i ≢ j → i + 1 ≢ j → i ≢ j + 1 → word_at word j ≡ word_at buffer j
  unfolding word
  word_at_ne j a b c = omega (
    arith,
    get_or-set_ne (set buffer i (low_byte v)) (i + 1) j (high_byte v) 0 b,
    get_or-set_ne buffer i j (low_byte v) 0 a,
    get_or-set_ne (set buffer i (low_byte v)) (i + 1) (j + 1) (high_byte v) 0 (omega arith),
    get_or-set_ne buffer i (j + 1) (low_byte v) 0 c,
  )

  length-word : length word ≡ length buffer
  unfolding word
  length-word = length-set _ (i + 1) (high_byte v) ∙ length-set buffer i (low_byte v)

module _ (b : Bpb) (c v : ℕ) (d : Disk) where
  -- Only the one sector of the table changes.
  pub set_fat_entry_other :
      (l : ℕ) → b.reserved_sectors + c * 2 / 512 ≢ l → set_fat_entry b c v d l ≡ d l
  unfolding set_fat_entry write_block
  set_fat_entry_other l ne = ground arith

  pub set_fat_entry-IsDisk : IsDisk d → IsDisk (set_fat_entry b c v d)
  unfolding set_fat_entry write_block word
  set_fat_entry-IsDisk h l = ground (
    arith,
    h l,
    length-word (d (b.reserved_sectors + c * 2 / 512)) (c * 2 % 512) v,
    h (b.reserved_sectors + c * 2 / 512),
  )

  -- On a disk of 512-byte sectors, a 16-bit entry that is written is read back.
  pub get-set_fat_entry_self : v < 2 ^ 16 → IsDisk d → get_fat_entry b c (set_fat_entry b c v d) ≡ v
  unfolding get_fat_entry set_fat_entry write_block word
  get-set_fat_entry_self small h = ground (
    arith,
    word_at_self (d (b.reserved_sectors + c * 2 / 512)) (c * 2 % 512) v small
        (omega (arith, h (b.reserved_sectors + c * 2 / 512))),
  )

  -- Writing one entry of the table leaves every other entry as it was.
  pub get-set_fat_entry_ne :
      (c' : ℕ) → c ≢ c' → get_fat_entry b c' (set_fat_entry b c v d) ≡ get_fat_entry b c' d
  unfolding get_fat_entry set_fat_entry write_block word
  get-set_fat_entry_ne c' ne = elim (Bool-cases (c' * 2 / 512 == c * 2 / 512)) [
    | inl same ↦
        ground
          (arith, word_at_ne (d (b.reserved_sectors + c * 2 / 512)) (c * 2 % 512) v (c' * 2 % 512))
    | inr other ↦ ground arith
  ]
