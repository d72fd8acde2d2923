-- ===== src/Frames.antt =====
-- The frame allocator over the boot loader's memory map (src/memory.rs). A frame is its address.
pub mod Fresh
pub mod Translate
use sil_os.Prelude.{
  ℕ, zero, suc, ◌+◌, ◌-◌, ◌*◌, ◌/◌, ◌%◌, Bool, Option, List, [], ◌∷◌, ◌++◌, if◌then◌else◌,
  get_elem?,
}

-- A region of the map: its address range, and whether its type is `Usable`.
pub record MemoryRegion : Type 0 where
  pub start_addr : ℕ
  pub end_addr : ℕ
  pub usable : Bool

pub record BootInfoFrameAllocator : Type 0 where
  pub memory_map : List MemoryRegion
  pub next_frame : ℕ

abbrev pub init_frames : List MemoryRegion → BootInfoFrameAllocator
init_frames memory_map = record { memory_map = memory_map; next_frame = 0 }

-- `PhysFrame::containing_address`
abbrev pub containing_address : ℕ → ℕ
containing_address addr = addr - addr % 4096

-- The frames of `addr`, `addr + 4096` and so on, `n` of them.
unfoldable pub frames_from : ℕ → ℕ → List ℕ
frames_from zero addr = []
frames_from (suc n) addr = containing_address addr ∷ frames_from n (addr + 4096)

-- `(start..end).step_by(4096)`: the number of addresses below the end.
abbrev pub frame_count : MemoryRegion → ℕ
frame_count r = (r.end_addr - r.start_addr + 4095) / 4096

unfoldable pub usable_frames : List MemoryRegion → List ℕ
unfolding frames_from
usable_frames [] = []
usable_frames (r ∷ regions) =
    let rest = usable_frames regions in
    if r.usable then frames_from (frame_count r) r.start_addr ++ rest else rest

-- `self.usable_frames().nth(self.next)`
unfoldable pub allocate_frame : BootInfoFrameAllocator → Option ℕ × BootInfoFrameAllocator
unfolding usable_frames
allocate_frame a = (
  get_elem? (usable_frames a.memory_map) a.next_frame,
  record a { next_frame = suc a.next_frame },
)
