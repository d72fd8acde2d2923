-- ===== src/Frames/Translate.antt =====
-- The walk through the page tables (src/memory.rs: `translate_addr`, `translate_addr_inner`). The parts of
-- an address and the entries of a table, which are read at the table's virtual address, are the
-- x86_64 crate's and the hardware's.
use sil_os.Prelude.{ℕ, ◌+◌, List, [], ◌∷◌}

-- `entry.frame()`: the start address of a frame, `FrameNotPresent` or `HugeFrame`.
pub data EntryFrame : Type 0 where
  frame : ℕ → EntryFrame
  not_present : EntryFrame
  huge_frame : EntryFrame

-- An address, `None`, or a panic.
pub data Translated : Type 0 where
  at_addr : ℕ → Translated
  unmapped : Translated
  huge_panic : Translated

pub record Paging : Type 0 where
  -- The entry at an index of the table at a virtual address, and the frame in CR3.
  pub entry : ℕ → ℕ → EntryFrame
  pub cr3_frame : ℕ
  pub p4_index : ℕ → ℕ
  pub p3_index : ℕ → ℕ
  pub p2_index : ℕ → ℕ
  pub p1_index : ℕ → ℕ
  pub page_offset : ℕ → ℕ

module _ (paging : Paging) (physical_memory_offset : ℕ) where
  -- `for &index in &table_indexes`, from a frame, with the offset that is added in the end.
  unfoldable pub walk : List ℕ → ℕ → ℕ → Translated
  walk [] start offset = at_addr (start + offset)
  walk (index ∷ indexes) start offset = elim (paging.entry (physical_memory_offset + start) index) [
    | frame next ↦ walk indexes next offset
    | not_present ↦ unmapped
    | huge_frame ↦ huge_panic
  ]

  unfoldable pub translate_addr : ℕ → Translated
  unfolding walk
  translate_addr addr =
      walk
        (paging.p4_index addr
          ∷ paging.p3_index addr
          ∷ paging.p2_index addr
          ∷ paging.p1_index addr
          ∷ [])
        paging.cr3_frame (paging.page_offset addr)
