-- ===== src/Boot/Started.antt =====
-- What the kernel has when its tasks start to run (src/main.rs).
use sil_os.Prelude.{
  ◌⊎◌, ℕ, ◌≡◌, ◌∙◌, refl, ap, inl, inr, Option, none, some, List, [], ◌∷◌, ◌++◌, codes, show_nat,
  lookup, utf8, Option-cases,
}
use sil_os.Vga.Printing.{IsWriter, write_string-IsWriter}
use sil_os.Fat16.{Bpb, Run, ok, err, out_of_fuel}
use sil_os.Fat16.Mount.{init}
use sil_os.Fat16.File.{write_new_file}
use sil_os.Fat16.File.Loop.{Ends}
use sil_os.Fat16.Sound.{IsSound, write_new_file-IsSound}
use sil_os.Fat16.Sound.Reached.{Leaves, done, failed}
use mathlib.Core.Path.{subst}
use sil_os.Task.{Polled}
use sil_os.Task.Executor.{Executor}
use sil_os.Heap.{Mapper, HeapResult, heap_ready, heap_error, init_heap}
use sil_os.Commands.{Kernel}
use sil_os.Commands.Output.{print, println}
use sil_os.Commands.Files.{fs_error}
use sil_os.Commands.Table.{insert_all, commands, init_cmds}
use sil_os.Boot.{
  init_cpu, Cpu, load_gdt, set_code_selector, load_task_selector, load_idt, initialize_pics,
  enable_interrupts, print_keypresses_task, shell_task, BootTask, Booted, running, boot_panics,
  mount_fs, report, write_test, write_test_file, spawn_tasks, then_write, then_start, kernel_main,
}

module _ {E : Type 0} where
  -- Printing changes the screen alone, and does not panic.
  println-Kernel :
      (s : List ℕ) (k : Kernel E)
      → IsWriter k.writer
      → (w : _) × (println s k ≡ some (record k { writer = w })) × IsWriter w
  unfolding print
  println-Kernel s k h =
      let (w, prints, i) = write_string-IsWriter (utf8 (s ++ codes "\n")) k.writer h in
      (w, rw (prints, print) refl, i)

  -- Writing the test file on a sound volume.
  report-IsSound :
      (b : Bpb) (k : Kernel E) (r : Run (Unit {0}))
      → IsWriter k.writer
      → Ends (λ _ d'. IsSound b d') (λ _ d'. IsSound b d') r
      → (k' : Kernel E) × (report k r ≡ some k')
        × IsSound b k'.disk
        × Leaves k'.disk r
        × (k'.fs ≡ k.fs)
        × (k'.commands ≡ k.commands)
  report-IsSound b k (ok u d) h s =
      let (w, prints, i) = println-Kernel (codes "Ok(())") (record k { disk = d }) h in
      (record k { disk = d; writer = w }, prints, s, done, refl, refl)
  report-IsSound b k (err e d) h s =
      let (w, prints, i) =
        println-Kernel (codes "Err(\"" ++ (fs_error e ++ codes "\")")) (record k { disk = d }) h in
      (record k { disk = d; writer = w }, prints, s, failed, refl, refl)
  report-IsSound b k out_of_fuel h s = absurd s

  write_test_file-IsSound :
      (b : Bpb) (k : Kernel E)
      → k.fs ≡ some b
      → IsWriter k.writer
      → IsSound b k.disk
      → (k' : Kernel E) × (write_test_file k ≡ some k')
        × IsSound b k'.disk
        × Leaves k'.disk
            (write_new_file b (codes "test    ") (codes "txt") (12 ∷ 12 ∷ 15 ∷ []) k.disk)
        × (k'.fs ≡ some b)
        × (k'.commands ≡ k.commands)
  unfolding write_test
  write_test_file-IsSound b k mounted h s =
      let r = write_new_file b (codes "test    ") (codes "txt") (12 ∷ 12 ∷ 15 ∷ []) k.disk in
      let (k', e, s', leaves, same_fs, same_commands) = report-IsSound b k r h (
        write_new_file-IsSound b k.disk s (codes "test    ") (codes "txt") (12 ∷ 12 ∷ 15 ∷ []) refl
          refl) in
      (k', ap (λ fs. write_test fs k) mounted ∙ e, s', leaves, same_fs ∙ mounted, same_commands)

  -- The kernel whose tasks start: a mounted sound volume, on which `write_new_file` has ended, the
  -- table of commands, and both tasks in the executor, the keyboard's first in its queue.
  pub record IsStarted (b : Bpb) (k0 : Kernel E) (e : Executor BootTask) (k : Kernel E)
      : Type 0 where
    pub mounted : k.fs ≡ some b
    pub sound : IsSound b k.disk
    pub file :
        Leaves k.disk
          (write_new_file b (codes "test    ") (codes "txt") (12 ∷ 12 ∷ 15 ∷ []) k0.disk)
    pub commands_are : k.commands ≡ (init_cmds k0).commands
    pub queued : e.task_queue ≡ 0 ∷ 1 ∷ []
    pub keyboard_task : lookup 0 e.tasks ≡ some print_keypresses_task
    pub shell : lookup 1 e.tasks ≡ some shell_task

spawned :
    (poll : ℕ → BootTask → Polled BootTask)
    → (e : Executor BootTask) × (spawn_tasks poll ≡ some e)
      × (e.task_queue ≡ 0 ∷ 1 ∷ [])
      × (lookup 0 e.tasks ≡ some print_keypresses_task)
      × (lookup 1 e.tasks ≡ some shell_task)
unfolding spawn_tasks
spawned poll = (_, refl, refl, refl, refl)

-- The tables of segments and of interrupts, then the PICs, then interrupts.
abbrev pub all_steps : Cpu
all_steps =
    load_gdt ∷ set_code_selector ∷ load_task_selector ∷ load_idt ∷ initialize_pics
    ∷ enable_interrupts ∷ []

init_cpu_lem : (cpu : Cpu) → init_cpu cpu ≡ cpu ++ all_steps
unfolding init_cpu
init_cpu_lem [] = refl
init_cpu_lem (s ∷ cpu) = ap (λ x. s ∷ x) (init_cpu_lem cpu)

HeapResult-cases :
    {A T : Type 0} (r : HeapResult A T)
    → ((start size : ℕ) × (a : A) × (t : T) × (r ≡ heap_ready start size a t))
      ⊎ ((a : A) × (t : T) × (e : _) × (r ≡ heap_error e a t))
HeapResult-cases (heap_ready start size a t) = inl (start, size, a, t, refl)
HeapResult-cases (heap_error e a t) = inr (a, t, e, refl)

module _ {E A T : Type 0} where
  -- Without a heap or without a volume the start is a panic; else the tasks start.
  abbrev pub WithVolume : Cpu → Option Bpb → Kernel E → Booted E A T → Type 0
  WithVolume cpu none k0 r = r ≡ boot_panics
  WithVolume cpu (some b) k0 (running cpu' e a t k) = IsStarted b k0 e k × (cpu' ≡ cpu ++ all_steps)
  WithVolume cpu (some b) k0 boot_panics = ⊥

  abbrev pub Boots : Cpu → HeapResult A T → Option Bpb → Kernel E → Booted E A T → Type 0
  Boots cpu (heap_error e a t) mounted k0 r = r ≡ boot_panics
  Boots cpu (heap_ready start size a t) mounted k0 r = WithVolume cpu mounted k0 r

  module _ (poll : ℕ → BootTask → Polled BootTask) (mapper : Mapper A T) where
    unmounted :
        (cpu : Cpu) (a : A) (t : T) (k : Kernel E)
        → k.fs ≡ none
        → then_write poll mapper (init_cpu cpu) a t (some k) ≡ boot_panics
    unfolding write_test init_cmds
    unmounted cpu a t k e =
        ap (λ fs. then_start poll mapper (init_cpu cpu) a t (write_test fs (init_cmds k))) e

    mounted-WithVolume :
        (cpu : Cpu) (a : A) (t : T) (b : Bpb) (k0 k : Kernel E)
        → k.fs ≡ some b
        → k.commands ≡ k0.commands
        → k.disk ≡ k0.disk
        → IsWriter k.writer
        → IsSound b k.disk
        → WithVolume cpu (some b) k0 (then_write poll mapper (init_cpu cpu) a t (some k))
    unfolding init_cmds
    mounted-WithVolume cpu a t b k0 k mounted same same_disk h s =
        let (k', e, s', left, m', c') = write_test_file-IsSound b (init_cmds k) mounted h s in
        let (x, spawns, q, first, second) = spawned poll in
        rw e (
          rw spawns (
            (
              record {
                mounted = m';
                sound = s';
                commands_are = c' ∙ ap (insert_all commands) same;
                queued = q;
                keyboard_task = first;
                shell = second;
                file =
                    subst
                      (λ d.
                        Leaves k'.disk
                          (write_new_file b (codes "test    ") (codes "txt") (12 ∷ 12 ∷ 15 ∷ []) d))
                      same_disk left;
              },
              init_cpu_lem cpu,
            )))

    mounted-Boots :
        (cpu : Cpu) (a : A) (t : T) (k : Kernel E)
        → k.fs ≡ none
        → IsWriter k.writer
        → ((b : Bpb) → init k.disk ≡ some b → IsSound b k.disk)
        → WithVolume cpu (init k.disk) k (then_write poll mapper (init_cpu cpu) a t (mount_fs k))
    unfolding mount_fs
    mounted-Boots cpu a t k bare h sound = elim (Option-cases (init k.disk)) [
      | inl bad ↦
          let (w, prints, i) =
            println-Kernel
              (codes "[FS] Error: Invalid BPB found. Disk might not be FAT16 or has an MBR.") k h in
          rw (bad, mount_fs) (rw prints (unmounted cpu a t (record k { writer = w }) bare))
      | inr (b, good) ↦
          let (w, prints, i) =
            println-Kernel
              (codes "[FS] FAT16 Initialized. Sectors per cluster: "
                ++ show_nat b.sectors_per_cluster)
              k h in
          rw (good, mount_fs)
            (rw prints (
              mounted-WithVolume cpu a t b k (record k { writer = w; fs = some b }) refl refl refl i
                (sound b good)))
    ]

    -- From a kernel whose screen is in order and on which nothing is mounted, with a disk that holds a
    -- sound volume if its boot sector is accepted: the start is a panic where `init_heap` fails, and
    -- where the boot sector is not accepted. In every other case the volume is mounted, the disk is
    -- as `write_new_file` of `test    .txt` left it, and sound, the table has the commands, and the
    -- executor has `print_keypresses` as task 0 and the shell as task 1, queued in this order. The
    -- processor has loaded the table of segments, the two selectors and the table of interrupts,
    -- initialised the PICs and enabled interrupts, in this order.
    pub kernel_main-Boots :
        (cpu : Cpu) (frames : A) (tables : T) (k : Kernel E)
        → k.fs ≡ none
        → IsWriter k.writer
        → ((b : Bpb) → init k.disk ≡ some b → IsSound b k.disk)
        → Boots cpu
            (init_heap mapper frames tables)
            (init k.disk)
            k
            (kernel_main poll mapper cpu frames tables k)
    unfolding kernel_main
    kernel_main-Boots cpu frames tables k bare h sound =
        elim (HeapResult-cases (init_heap mapper frames tables)) [
          | inl (start, size, a, t, ready) ↦
              rw (ready, kernel_main) (mounted-Boots cpu a t k bare h sound)
          | inr (a, t, e, no_heap) ↦ rw (no_heap, kernel_main) refl
        ]
