-- ===== src/Tests/Machine.antt =====
-- Memory, interrupts, the start and the end of the machine at concrete inputs (src/allocator.rs,
-- src/interrupts.rs, src/power.rs, src/main.rs, src/lib.rs).
use sil_os.Prelude.{
  inl, encode_char, codes, ℕ, ◌≡◌, ◌≢◌, refl, arith, true, false, Option, none, some, List, [], ◌∷◌,
  ◌++◌, ◌==◌, if◌then◌else◌, take, utf8, sym, ap, ◌∙◌,
}
use mathlib.Core.Path.{subst}
use sil_os.Vga.{write_string}
use sil_os.Fat16.{Bpb}
use sil_os.Fat16.Mount.{init}
use sil_os.Fat16.Mount.Formatted.{init-format_drive}
use sil_os.Fat16.Mount.Clean.{format_drive-IsSound}
use sil_os.Fat16.Data.Sectors.{length-zero_sector}
use sil_os.Fat16.Sound.{IsSound}
use sil_os.Frames.{MemoryRegion, BootInfoFrameAllocator, init_frames}
use sil_os.Frames.Fresh.{IsMap, map_end, region}
use sil_os.Heap.{PageTableFlag, MapResult, map_ok, init_heap}
use sil_os.Heap.Mapped.{IsMapper, boot_mapper, HeapOutcome, init_heap-IsHeap}
use sil_os.Interrupts.{Machine, Details, timer, keyboard, ata_primary}
use sil_os.Interrupts.Delivered.{Event, codes_of, vectors_of, deliver_all, deliver_all-queue}
use sil_os.Task.{Polled}
use sil_os.Harness.{
  KernelEnd, ended, waits, panics_again, TestMachine, TestEnd, returned, panicked, Testable,
  test_kernel_main,
}
use sil_os.Harness.Reported.{KeepScreen, Verdict, test_kernel_main-Verdict}
use sil_os.Ide.{Bus, new, flush_cache}
use sil_os.Ide.Protocol.{Drive}
use sil_os.Power.{PowerState, off, farewell, shutdown}
use sil_os.Power.Quiet.{shutdown-off}
use sil_os.Commands.{Kernel}
use sil_os.Boot.{BootTask, kernel_main}
use sil_os.Boot.Started.{Boots, kernel_main-Boots}
use sil_os.Tests.Files.{blank, formatted}
use sil_os.Tests.Tasks.{idle_keys}
use sil_os.Tests.Lines.{screen, kernel}
use sil_os.Tests.Drives.{sim, same_drive, two, sim-IsAta, idle, delay_of_small}

-- Sixteen megabytes above the first.
abbrev one_region : List MemoryRegion
one_region = (record { start_addr = 0x100000; end_addr = 0x1100000; usable = true }) ∷ []

one_region-IsMap : IsMap 0 one_region
one_region-IsMap = region (omega arith) (omega arith) refl refl map_end

-- Page tables as a function, and a `map_to` that takes no frames of its own.
abbrev Tables : Type 0
Tables = ℕ → Option ℕ

abbrev put_page : ℕ → ℕ → Tables → Tables
put_page page frame t p = if p == page then some frame else t p

abbrev frame_of : Tables → ℕ → Option ℕ
frame_of t p = t p

abbrev map_to :
    ℕ
    → ℕ
    → List PageTableFlag
    → BootInfoFrameAllocator
    → Tables
    → MapResult BootInfoFrameAllocator Tables
map_to page frame flags a t = map_ok a (put_page page frame t)

abbrev tables_of : Tables → MapResult BootInfoFrameAllocator Tables → Tables
tables_of d (map_ok a t) = t
tables_of d _ = d

abbrev frames_of :
    BootInfoFrameAllocator → MapResult BootInfoFrameAllocator Tables → BootInfoFrameAllocator
frames_of d (map_ok a t) = a
frames_of d _ = d

put_page-same : (page frame : ℕ) (t : Tables) → put_page page frame t page ≡ some frame
put_page-same page frame t = ground arith

put_page-other : (page frame p : ℕ) (t : Tables) → p ≢ page → put_page page frame t p ≡ t p
put_page-other page frame p t h = ground arith

map_to-IsMapper : IsMapper map_to frame_of
map_to-IsMapper = record {
  maps = λ page frame flags a a' t t' e.
      ap (λ r. tables_of t r page) (sym e) ∙ put_page-same page frame t;
  others = λ page frame flags a a' t t' e p h.
      ap (λ r. tables_of t r p) (sym e) ∙ put_page-other page frame p t h;
  takes = λ page frame flags a a' t t' e.
      let same : a' ≡ a = ap (frames_of a) (sym e) in
      (ap (λ f. f.memory_map) same, omega (arith, ap (λ f. f.next_frame) same));
}

abbrev no_tables : Tables
no_tables p = none

init_heap-IsHeap_example :
    HeapOutcome map_to frame_of map_to-IsMapper
      (init_frames one_region)
      no_tables
      (init_heap (boot_mapper map_to frame_of map_to-IsMapper) (init_frames one_region) no_tables)
init_heap-IsHeap_example =
    init_heap-IsHeap map_to frame_of map_to-IsMapper (init_frames one_region) no_tables
      one_region-IsMap

-- An interrupt with this code at the keyboard's port.
abbrev details : ℕ → Details
details code = record {
  scancode = code;
  stack_frame = [];
  cr2 = [];
  error_code = [];
  panic_info = [];
}

abbrev events : List Event
events =
    (timer, details 0)
    ∷ (keyboard, details 30)
    ∷ (ata_primary, details 0)
    ∷ (keyboard, details 158)
    ∷ []

abbrev machine : Machine
machine = record { keys = idle_keys; writer = screen; writer_locked = true; ended = [] }

deliver_all-queue_example :
    (m' : Machine) × (deliver_all events machine ≡ some m')
    × (m'.keys.scancode_queue ≡ some (take 100 ([] ++ codes_of events)))
    × (m'.ended ≡ [] ++ vectors_of events)
deliver_all-queue_example =
    deliver_all-queue events machine [] (λ e. cc, (λ e. cc, (λ e. cc, (λ e. cc, tt)))) refl
      (omega arith) (inl (omega arith))

abbrev powered : PowerState Drive
powered = record { hardware = idle; writer = screen }

shutdown-off_example :
    (s : Drive) × (end_state : PowerState Drive) × (flush_cache sim new 3 idle ≡ some s)
    × (s ≡ record idle { busy = 0 })
    × (shutdown sim (λ d. d) 3 powered ≡ off end_state)
    × (end_state.hardware
        ≡ sim.write_port 0xF4 0x10 (
            sim.write_port 0x4004 0x3400
              (sim.write_port 0xB004 0x2000 (sim.write_port 0x604 0x2000 s))))
    × (write_string (utf8 farewell) screen ≡ some end_state.writer)
shutdown-off_example =
    shutdown-off sim (λ d. d) same_drive two sim-IsAta 2 (λ t. delay_of_small t.phase) powered
      (record { not_busy = refl; no_transfer = refl }) (omega arith)

-- The kernel before it starts, with a formatted disk.
abbrev bare : Kernel ℕ
bare = record kernel { fs = none }

bpb_of : {b c : Bpb} → some b ≡ some c → b ≡ c
bpb_of e = cc

bare-IsSound : (b : Bpb) → init bare.disk ≡ some b → IsSound b bare.disk
bare-IsSound b e =
    subst (λ x. IsSound x formatted) (bpb_of (sym (init-format_drive blank) ∙ e))
      (format_drive-IsSound blank (λ l. length-zero_sector))

-- Tasks that are always pending.
abbrev poll : ℕ → BootTask → Polled BootTask
poll id task = record { ready = false; future = task; wakes = [] }

kernel_main-Boots_example :
    Boots []
      (init_heap (boot_mapper map_to frame_of map_to-IsMapper) (init_frames one_region) no_tables)
      (init formatted)
      bare
      (kernel_main poll
        (boot_mapper map_to frame_of map_to-IsMapper)
        []
        (init_frames one_region)
        no_tables
        bare)
kernel_main-Boots_example =
    kernel_main-Boots poll (boot_mapper map_to frame_of map_to-IsMapper) [] (init_frames one_region)
      no_tables bare refl (omega arith) bare-IsSound

-- The bytes that were sent, and the codes that the exit device got.
abbrev Host : Type 0
Host = List ℕ × List ℕ

abbrev host_bus : Bus Host
host_bus = record { read_port = λ port h. (0, h); write_port = λ port v h. (h.0, h.1 ++ v ∷ []) }

abbrev send : List ℕ → Host → Host
send text h = (h.0 ++ text, h.1)

-- A test that returns, and one that panics.
abbrev calm : Testable Host
calm = record { type_name = codes "calm"; call = λ m. returned m }

abbrev panics : Testable Host
panics = record {
  type_name = codes "panics";
  call = λ m. panicked (codes "boom") (record m { writer = screen });
}

abbrev column_of : TestEnd Host → ℕ
column_of (returned m) = 0
column_of (panicked info m) = m.writer.column_position

both_tests-KeepScreen : KeepScreen (calm ∷ panics ∷ [])
both_tests-KeepScreen =
    (λ m k info e. absurd (cc), (λ m k info e. omega (arith, ap column_of e), tt))

abbrev host : TestMachine Host
host = record { hardware = ([], []); writer = screen; writer_locked = false }

test_kernel_main-Verdict_example :
    Verdict host_bus send
      (calm ∷ panics ∷ [])
      host
      (test_kernel_main host_bus send (calm ∷ panics ∷ []) host)
test_kernel_main-Verdict_example =
    test_kernel_main-Verdict host_bus send (calm ∷ panics ∷ []) host both_tests-KeepScreen

-- What that run sends.
abbrev sent_by : KernelEnd Host → Host
sent_by (ended m) = m.hardware
sent_by (waits m) = m.hardware
sent_by panics_again = ([], [])

both_tests_run :
    sent_by (test_kernel_main host_bus send (calm ∷ panics ∷ []) host)
    ≡ (codes "Running 2 tests\ncalm...\t[ok]\npanics...\t\u{1b}[31mboom\u{1b}[0m", 0x11 ∷ [])
unfolding test_kernel_main write_string utf8 encode_char
both_tests_run = refl
