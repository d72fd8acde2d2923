-- ===== src/Heap.antt =====
-- The kernel heap (src/allocator.rs) and the mapping of pages (src/memory.rs). A page and a frame are
-- their start addresses. The page tables and `Mapper::map_to`, which may take frames of its own, are
-- the x86_64 crate's, and the allocator of blocks is linked_list_allocator's.
pub mod Mapped
use sil_os.Prelude.{ℕ, zero, suc, ◌+◌, ◌-◌, ◌*◌, ◌/◌, Option, none, some, List, [], ◌∷◌}
use sil_os.Frames.{containing_address}

pub data PageTableFlag : Type 0 where
  present writable : PageTableFlag

pub data MapToError : Type 0 where
  frame_allocation_failed parent_entry_huge_page : MapToError
  page_already_mapped : ℕ → MapToError

-- `Result` of `map_to`, with the frame allocator and the page tables behind it.
pub data MapResult (A T : Type 0) : Type 0 where
  map_ok : A → T → MapResult A T
  map_err : MapToError → A → T → MapResult A T

-- `FrameAllocator::allocate_frame` and `Mapper::map_to`.
pub record Mapper (A T : Type 0) : Type 0 where
  pub allocate : A → Option ℕ × A
  pub map_to : ℕ → ℕ → List PageTableFlag → A → T → MapResult A T

abbrev pub heap_start : ℕ
heap_start = 0x444444440000

abbrev pub heap_size : ℕ
heap_size = 8 * 1024 * 1024

-- The number of pages in `Page::range_inclusive(heap_start_page, heap_end_page)`.
abbrev pub page_count : ℕ → ℕ → ℕ
page_count start size =
    (containing_address (start + size - 1) - containing_address start) / 4096 + 1

-- What `init_heap` returns: `Ok` with the range that the allocator of blocks is given, or an error.
pub data HeapResult (A T : Type 0) : Type 0 where
  heap_ready : ℕ → ℕ → A → T → HeapResult A T
  heap_error : MapToError → A → T → HeapResult A T

module _ {A T : Type 0} (mapper : Mapper A T) where
  -- `for page in page_range`, over the pages that are left.
  unfoldable pub map_pages : ℕ → ℕ → A → T → MapResult A T
  map_pages zero page a t = map_ok a t
  map_pages (suc n) page a t =
      let (allocated, a1) = mapper.allocate a in
      elim allocated [
        | none ↦ map_err frame_allocation_failed a1 t
        | some frame ↦ elim (mapper.map_to page frame (present ∷ writable ∷ []) a1 t) [
          | map_err e a2 t2 ↦ map_err e a2 t2
          | map_ok a2 t2 ↦ map_pages n (page + 4096) a2 t2
        ]
      ]

  abbrev pub init_allocator : ℕ → ℕ → MapResult A T → HeapResult A T
  init_allocator start size (map_ok a t) = heap_ready start size a t
  init_allocator start size (map_err e a t) = heap_error e a t

  -- `init_heap` with its two constants as arguments.
  unfoldable pub init_range : ℕ → ℕ → A → T → HeapResult A T
  unfolding map_pages
  init_range start size a t =
      init_allocator start size (map_pages (page_count start size) (containing_address start) a t)

  unfoldable pub init_heap : A → T → HeapResult A T
  unfolding init_range
  init_heap a t = init_range heap_start heap_size a t

  -- `expect`: an error is a panic, `none`.
  abbrev pub expect_mapped : MapResult A T → Option (A × T)
  expect_mapped (map_ok a t) = some (a, t)
  expect_mapped (map_err e a t) = none

  -- The frame of the VGA text buffer.
  unfoldable pub create_example_mapping : ℕ → A → T → Option (A × T)
  create_example_mapping page a t =
      expect_mapped (mapper.map_to page (containing_address 0xB8000) (present ∷ writable ∷ []) a t)

-- `EmptyFrameAllocator`
abbrev pub allocate_nothing : Unit {0} → Option ℕ × Unit {0}
allocate_nothing a = (none, a)
