-- ===== src/Boot.antt =====
-- How the kernel starts (src/main.rs: `kernel_main`; src/lib.rs: `init`; src/gdt.rs: `init`). The page
-- tables, the boot loader's memory map and the polling of tasks are parameters.
pub mod Started
use sil_os.Prelude.{ℕ, Bool, true, Option, none, some, List, [], ◌∷◌, ◌++◌, codes, show_nat}
use sil_os.Fat16.{Bpb, Run, ok, err, out_of_fuel}
use sil_os.Fat16.Mount.{init}
use sil_os.Fat16.File.{write_new_file}
use sil_os.Task.{Polled}
use sil_os.Task.Executor.{Executor, new, spawn}
use sil_os.Heap.{Mapper, HeapResult, heap_ready, heap_error, init_heap}
use sil_os.Commands.{Kernel}
use sil_os.Commands.Output.{println}
use sil_os.Commands.Files.{fs_error}
use sil_os.Commands.Table.{init_cmds}

-- What `init` does to the processor and the PICs.
pub data CpuStep : Type 0 where
  load_gdt set_code_selector load_task_selector load_idt : CpuStep
  initialize_pics enable_interrupts : CpuStep

-- The steps so far; each function adds its own behind them.
abbrev pub Cpu : Type 0
Cpu = List CpuStep

abbrev pub step : CpuStep → Cpu → Cpu
step s cpu = cpu ++ s ∷ []

abbrev pub gdt_init : Cpu → Cpu
gdt_init cpu = step load_task_selector (step set_code_selector (step load_gdt cpu))

abbrev pub init_idt : Cpu → Cpu
init_idt cpu = step load_idt cpu

unfoldable pub init_cpu : Cpu → Cpu
init_cpu cpu = step enable_interrupts (step initialize_pics (init_idt (gdt_init cpu)))

-- The two tasks that are spawned.
pub data BootTask : Type 0 where
  print_keypresses_task shell_task : BootTask

-- The kernel that runs its tasks, with what was done before; or a panic, which a writing loop without
-- an end counts as.
pub data Booted (E A T : Type 0) : Type 0 where
  running : Cpu → Executor BootTask → A → T → Kernel E → Booted E A T
  boot_panics : Booted E A T

module _ {E : Type 0} where
  abbrev pub with_fs : Bpb → Option (Kernel E) → Option (Kernel E)
  with_fs b none = none
  with_fs b (some k) = some (record k { fs = some b })

  -- `fat16::init`, with what it prints.
  unfoldable pub mount_fs : Kernel E → Option (Kernel E)
  unfolding init
  mount_fs k = elim (init k.disk) [
    | none ↦
        println (codes "[FS] Error: Invalid BPB found. Disk might not be FAT16 or has an MBR.") k
    | some b ↦ with_fs b (
        println
          (codes "[FS] FAT16 Initialized. Sectors per cluster: " ++ show_nat b.sectors_per_cluster)
          k)
  ]

  -- `println!("{:?}", res)`
  abbrev pub report : Kernel E → Run (Unit {0}) → Option (Kernel E)
  report k (ok u d) = println (codes "Ok(())") (record k { disk = d })
  report k (err e d) =
      println (codes "Err(\"" ++ (fs_error e ++ codes "\")")) (record k { disk = d })
  report k out_of_fuel = none

  -- The file that is written at every start; `unwrap` panics where no volume is mounted.
  unfoldable pub write_test : Option Bpb → Kernel E → Option (Kernel E)
  unfolding write_new_file
  write_test none k = none
  write_test (some b) k =
      report k (write_new_file b (codes "test    ") (codes "txt") (12 ∷ 12 ∷ 15 ∷ []) k.disk)

  abbrev pub write_test_file : Kernel E → Option (Kernel E)
  write_test_file k = write_test k.fs k

module _ (poll : ℕ → BootTask → Polled BootTask) where
  -- The executor with its two tasks; `TaskId::new` counts from 0.
  unfoldable pub spawn_tasks : Option (Executor BootTask)
  unfolding spawn
  spawn_tasks = elim (spawn poll 0 print_keypresses_task new) [
    | none ↦ none
    | some e ↦ spawn poll 1 shell_task e
  ]

module _ {E A T : Type 0} (poll : ℕ → BootTask → Polled BootTask) (mapper : Mapper A T) where
  abbrev pub start_tasks : Cpu → A → T → Kernel E → Option (Executor BootTask) → Booted E A T
  start_tasks cpu a t k none = boot_panics
  start_tasks cpu a t k (some e) = running cpu e a t k

  abbrev pub then_start : Cpu → A → T → Option (Kernel E) → Booted E A T
  then_start cpu a t none = boot_panics
  then_start cpu a t (some k) = start_tasks cpu a t k (spawn_tasks poll)

  abbrev pub then_write : Cpu → A → T → Option (Kernel E) → Booted E A T
  then_write cpu a t none = boot_panics
  then_write cpu a t (some k) = then_start cpu a t (write_test_file (init_cmds k))

  abbrev pub with_heap : Cpu → HeapResult A T → Kernel E → Booted E A T
  with_heap cpu (heap_error e a t) k = boot_panics
  with_heap cpu (heap_ready start size a t) k = then_write cpu a t (mount_fs k)

  unfoldable pub kernel_main : Cpu → A → T → Kernel E → Booted E A T
  unfolding init_heap mount_fs write_test spawn_tasks init_cpu
  kernel_main cpu frames tables k = with_heap (init_cpu cpu) (init_heap mapper frames tables) k
