-- ===== src/Fat16/Root/Slots.antt =====
-- Records in a directory sector: what is written can be read back, and the scan for a free record.
use sil_os.Prelude.{
  ℕ, ◌+◌, ◌^◌, ◌≤◌, ◌<◌, ◌≡◌, ◌∙◌, refl, sym, ap, true, List, ◌++◌, arith, length, take, drop,
  slice, overwrite, get_or, length-append, take-append, drop-append, drop-drop, drop-overwrite,
  u16_from_le-bytes, u32_from_le-bytes, get_or-drop, get_or-front, same_bytes_refl,
}
use mathlib.Core.List.{append-nil, append_assoc}
use sil_os.Fat16.{DirectoryEntry, Sector, entry_bytes, entry_fields, entry_of, read_entry}
use sil_os.Fat16.Root.{is_match}

-- A record whose fields fit their places.
pub record IsEntry (e : DirectoryEntry) : Type 0 where
  pub name_8 : length e.filename ≡ 8
  pub ext_3 : length e.extension ≡ 3
  pub time_word : e.creation_time < 2 ^ 16
  pub date_word : e.creation_date < 2 ^ 16
  pub access_word : e.last_access_date < 2 ^ 16
  pub high_word : e.cluster_high < 2 ^ 16
  pub modified_time_word : e.modified_time < 2 ^ 16
  pub modified_date_word : e.modified_date < 2 ^ 16
  pub low_word : e.cluster_low < 2 ^ 16
  pub size_word : e.file_size < 2 ^ 32

module _ (e : DirectoryEntry) (h : IsEntry e) where
  pub length-entry_bytes : length (entry_bytes e) ≡ 32
  unfolding entry_bytes
  length-entry_bytes =
      length-append e.filename _
      ∙ omega (arith, h.name_8, h.ext_3, length-append e.extension (entry_fields e))

  fields_back :
      (name ext rest : List ℕ)
      → entry_of name ext (entry_fields e ++ rest) ≡ record e { filename = name; extension = ext }
  unfolding entry_of
  fields_back name ext rest = λ i. record e {
    filename = name;
    extension = ext;
    creation_time = u16_from_le-bytes e.creation_time h.time_word i;
    creation_date = u16_from_le-bytes e.creation_date h.date_word i;
    last_access_date = u16_from_le-bytes e.last_access_date h.access_word i;
    cluster_high = u16_from_le-bytes e.cluster_high h.high_word i;
    modified_time = u16_from_le-bytes e.modified_time h.modified_time_word i;
    modified_date = u16_from_le-bytes e.modified_date h.modified_date_word i;
    cluster_low = u16_from_le-bytes e.cluster_low h.low_word i;
    file_size = u32_from_le-bytes e.file_size h.size_word i;
  }

  -- The three cuts of a record's bytes.
  module _ (rest : List ℕ) where
    cut_name : take 8 (entry_bytes e ++ rest) ≡ e.filename
    unfolding entry_bytes
    cut_name =
        ap (take 8) (append_assoc e.filename _ rest)
        ∙ take-append e.filename _ 8 0 (omega (arith, h.name_8))
        ∙ append-nil e.filename

    behind_name : drop 8 (entry_bytes e ++ rest) ≡ e.extension ++ (entry_fields e ++ rest)
    unfolding entry_bytes
    behind_name =
        ap (drop 8) (append_assoc e.filename _ rest)
        ∙ drop-append e.filename _ 8 h.name_8
        ∙ append_assoc e.extension (entry_fields e) rest

    cut_ext : slice (entry_bytes e ++ rest) 8 3 ≡ e.extension
    cut_ext =
        ap (take 3) behind_name
        ∙ take-append e.extension _ 3 0 (omega (arith, h.ext_3))
        ∙ append-nil e.extension

    cut_fields : drop 11 (entry_bytes e ++ rest) ≡ entry_fields e ++ rest
    cut_fields =
        sym (drop-drop 8 3 11 (entry_bytes e ++ rest) refl)
        ∙ ap (drop 3) behind_name
        ∙ drop-append e.extension _ 3 h.ext_3

    entry_back :
        entry_of
          (take 8 (entry_bytes e ++ rest))
          (slice (entry_bytes e ++ rest) 8 3)
          (drop 11 (entry_bytes e ++ rest))
        ≡ e
    entry_back =
        (λ i. entry_of (cut_name i) (cut_ext i) (cut_fields i))
        ∙ fields_back e.filename e.extension rest

  module _ (buffer : Sector) (offset : ℕ) (inside : offset + 32 ≤ length buffer) where
    behind :
        drop offset (overwrite offset (entry_bytes e) buffer)
        ≡ entry_bytes e ++ drop (offset + length (entry_bytes e)) buffer
    behind = drop-overwrite offset (entry_bytes e) buffer (omega (arith, length-entry_bytes))

    -- What is copied to `offset` is read there.
    pub read_entry-overwrite : read_entry (overwrite offset (entry_bytes e) buffer) offset ≡ e
    unfolding read_entry
    read_entry-overwrite =
        (λ i. entry_of (take 8 (behind i)) (slice (behind i) 8 3) (drop 11 (behind i)))
        ∙ entry_back (drop (offset + length (entry_bytes e)) buffer)

    pub is_match-overwrite :
        is_match e.filename e.extension (overwrite offset (entry_bytes e) buffer) offset ≡ true
    is_match-overwrite =
        let rest = drop (offset + length (entry_bytes e)) buffer in
        let at_name = ap (take 8) behind ∙ cut_name rest in
        let at_ext : slice (overwrite offset (entry_bytes e) buffer) (offset + 8) 3 ≡ e.extension =
          ap (take 3) (
            sym (drop-drop offset 8 (offset + 8) (overwrite offset (entry_bytes e) buffer) refl)
            ∙ ap (drop 8) behind)
          ∙ cut_ext rest in
        rw (at_name, at_ext, same_bytes_refl e.filename, same_bytes_refl e.extension)

    pub first_byte-overwrite :
        get_or (overwrite offset (entry_bytes e) buffer) offset 0 ≡ get_or e.filename 0 0
    unfolding entry_bytes
    first_byte-overwrite =
        get_or-drop offset _ 0
        ∙ ap (λ l. get_or l 0 0) behind
        ∙ ap (λ l. get_or l 0 0) (append_assoc e.filename _ _)
        ∙ get_or-front e.filename _ 0 (omega (arith, h.name_8))
