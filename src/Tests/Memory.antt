-- ===== src/Tests/Memory.antt =====
-- The frame allocator on a map of two regions (src/memory.rs).
use sil_os.Prelude.{◌≡◌, refl, true, List, [], ◌∷◌, some}
use sil_os.Frames.{MemoryRegion, BootInfoFrameAllocator, init_frames, allocate_frame}

abbrev two_regions : List MemoryRegion
two_regions =
    (record { start_addr = 0x1000; end_addr = 0x2000; usable = true })
    ∷ (record { start_addr = 0x4000; end_addr = 0x6000; usable = true })
    ∷ []

abbrev fresh : BootInfoFrameAllocator
fresh = init_frames two_regions

abbrev used_once : BootInfoFrameAllocator
used_once = record { memory_map = two_regions; next_frame = 1 }

first_frame : (allocate_frame fresh).0 ≡ some 0x1000
unfolding allocate_frame
first_frame = refl

second_frame : (allocate_frame used_once).0 ≡ some 0x4000
unfolding allocate_frame
second_frame = refl
