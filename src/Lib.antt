-- ===== src/Lib.antt =====
-- SilOS: a verified model of the kernel's own components (Rust, src/*.rs).
--
-- The program is a small x86_64 kernel. An interrupt handler feeds a keyboard queue; an executor
-- polls the tasks; the shell, the editor and a game run as tasks, print through the VGA writer and
-- keep their files on a FAT16 volume behind an ATA drive.
--
-- The files and what they model:
--   Prelude      the shared lists, Boolean tests, byte encodings, UTF-8 and rulesets;
--   Fat16        src/fat16.rs. `Bpb` and `DirectoryEntry` are the two packed structs, `Disk` is the
--                drive seen through `read_sector` and `write_sector_bytes`: 512 bytes at
--                each LBA.
--                Volume: `cluster_to_lba` and the geometry; Table: `get_fat_entry`,
--                `set_fat_entry`, `find_free_cluster`; Data: `read_file` and the sectors that the
--                writers write; Root: the directory scans of `find_file`, `find_file_location` and
--                `find_empty_root_slot`; File: `write_new_file`, `overwrite_file`,
--                `free_cluster_chain`; Mount: `init` and `format_drive`; Sound: the theorems about files that
--                are written over, and about any sequence of writes;
--   Ide          src/ide.rs: every operation of `AtaDrive` over the reads and writes of ports, which are a
--                parameter. Protocol: what ATA promises of the ports, as laws about a view of the
--                hardware; Transfer, Sectors and Driver: the theorems;
--   Vga          src/vga_buffer.rs and, in Canvas, src/canvas.rs: the 25 rows of 80 cells, `Writer` with
--                each of its methods, the cells that the game draws; Scroll and Printing: what a new
--                line, printing, a backspace and clearing do;
--   Task         src/task/: what a poll of a future does is a parameter. Executor: `spawn`,
--                `run_ready_tasks`; Keyboard: `add_scancode` of the interrupt handler and
--                `poll_next` of the task that waits for it, with interrupts at every point; in Decode
--                `print_keypresses` and the queue of key events;
--   Editor       src/editor/mod.rs: `Editor` with each of its methods. A line is a list of code points
--                and the cursor a byte offset, as in the code. Text: loading, saving and file names;
--                Draw: the screen; Edits, Moves, Saved and Safe: the theorems;
--   Risp         the shell's Lisp, src/parser.rs. Reader and Grammar: `tokenize`, `parse`, `read_seq`,
--                `parse_atom`; Values and Env: numbers, map keys, environments and maps; Builtins:
--                `default_env`; Display: printing; Eval: `eval` with a function for each special form, in
--                Action the monad of its environment and its errors, in Laws theorems, as in
--                Bounds and Keys;
--                Interpret: `parse_eval` and `interpret`. Floats are a parameter (`Floats`), and
--                `System` is the rest of the kernel as `run_cmd` shows it;
--   Commands     src/commands.rs and `run_editor` of src/editor/mod.rs: the state that commands share
--                (`Kernel`), each command, the table, `run_cmd`, in Session the editor's loop and in
--                ShellTask `shell_task`, all over what the key queue holds at each poll. Decoding keys is
--                the pc_keyboard crate's and a parameter (`Keyboard`). Stored, Shown, Bound, SameFile,
--                Edited and Reopened hold the theorems. Scripts run commands through `System`, which Run fills with
--                `run_cmd` at one unit of fuel less;
--   Shell        src/shell.rs: the command line, its words and the history;
--   HashMap      src/hashmap.rs: `new`, `get`, `put` and `remove` over a key's hash and equality;
--   Pong         src/pong.rs: the keys, `update` with its drawing, the win conditions, and in Run the loop of
--                the game;
--   Frames       src/memory.rs: `BootInfoFrameAllocator` over the regions of the memory map;
--                Translate: `translate_addr`, with the tables as a parameter;
--   Heap         src/allocator.rs: `init_heap` over the allocator of frames and `map_to`, both parameters,
--                and the example mapping of src/memory.rs; Mapped: where the heap's pages lie;
--   Interrupts   src/interrupts.rs: each handler, their table and what the PICs are told; Delivered:
--                interrupts one after the other;
--   Power        src/power.rs and `exit_qemu` of src/lib.rs, over the ports of Ide; Quiet: the order of
--                a shutdown;
--   Boot         `kernel_main` of src/main.rs with `init` of src/lib.rs, src/gdt.rs and src/fat16.rs;
--                Started: what the kernel has when its tasks start;
--   Harness      the runner of the tests (src/lib.rs) and the serial port (src/serial.rs), which does what a
--                parameter says; Reported: how a run of the tests ends;
--   Tests        the runs of the theorems at concrete inputs.
--
-- How code becomes definitions: a method that takes `&mut self` or writes the disk takes the state
-- and returns the new one; a loop is recursion on the rounds that are left, or on fuel; an error
-- is a value; a panic is `none`. Machine integers are native natural numbers with the wrap-around
-- of a release build written out; a development build panics where one wraps, and the theorems
-- stay in the ranges where nothing does.
--
-- Fuel: `read_file` has `file_size + 1` rounds and copies a byte in each; the loop of the writers
-- has `data.len() + 1` rounds; `free_cluster_chain` has 2 ^ 16 + 2 rounds, and every round but the
-- last two clears an entry that was in use. The executor's rounds are counted, since
-- tasks that wake each other go on forever. The reader has two rounds for each token. `eval` is
-- over fuel that bounds its depth and the rounds of each `for`, since programs need not end, and
-- `run_cmd` over the depth of commands within scripts; the driver waits for at most the given number
-- of reads of the status.
--
-- Not modelled: what other tasks do while a command awaits, and interrupts within a command; the
-- contents of the segment tables (src/gdt.rs) and the set-up of the page tables from a register
-- (`init` and `active_level_4_table` of src/memory.rs), which are the x86_64 crate's; locks, which are
-- free here but for the writer's in Interrupts and Harness; allocation on the heap, which succeeds but
-- where `read_file_within` says otherwise; `Dummy` of src/allocator.rs, which nothing uses.
pub mod Prelude
pub mod Fat16
pub mod Ide
pub mod Vga
pub mod Task
pub mod Editor
pub mod Risp
pub mod Shell
pub mod HashMap
pub mod Pong
pub mod Commands
pub mod Frames
pub mod Heap
pub mod Interrupts
pub mod Power
pub mod Boot
pub mod Harness
pub mod Tests
