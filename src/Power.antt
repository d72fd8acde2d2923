-- ===== src/Power.antt =====
-- Shutting down (src/power.rs) and the exit device of QEMU (src/lib.rs: `QemuExitCode`, `exit_qemu`), over
-- the ports of src/ide.rs. Taking the locks waits for tasks that hold them; nothing runs beside the
-- code here, so they are free.
pub mod Quiet
use sil_os.Prelude.{ℕ, Bool, false, Option, none, some, List, codes, utf8, ◌++◌}
use sil_os.Vga.{Writer, write_string}
use sil_os.Ide.{Bus, new, flush_cache}

pub data QemuExitCode : Type 0 where
  exit_success exit_failed : QemuExitCode

abbrev pub exit_code_u32 : QemuExitCode → ℕ
exit_code_u32 exit_success = 0x10
exit_code_u32 exit_failed = 0x11

-- The processor with what is connected to its ports, and the screen.
pub record PowerState (S : Type 0) : Type 0 where
  pub hardware : S
  pub writer : Writer

-- How `shutdown` ends: in `hlt_loop`, in a panic, or nowhere while the drive stays busy.
pub data ShutdownEnd (S : Type 0) : Type 0 where
  off : PowerState S → ShutdownEnd S
  panicked : ShutdownEnd S
  still_busy : ShutdownEnd S

abbrev pub farewell : List ℕ
farewell = codes "It is now safe to power off your computer." ++ codes "\n"

module _ {S : Type 0} (bus : Bus S) where
  unfoldable pub exit_qemu : QemuExitCode → S → S
  exit_qemu exit_code s = bus.write_port 0xF4 (exit_code_u32 exit_code) s

  -- The three ports that emulators power off at, and then the exit device.
  unfoldable pub power_ports : S → S
  unfolding exit_qemu
  power_ports s =
      let qemu = bus.write_port 0x604 0x2000 s in
      let bochs = bus.write_port 0xB004 0x2000 qemu in
      let vbox = bus.write_port 0x4004 0x3400 bochs in exit_qemu exit_success vbox

-- `disable` is `interrupts::disable()`, an instruction of the processor.
module _ {S : Type 0} (bus : Bus S) (disable : S → S) where
  -- The wait for the drive takes fuel.
  unfoldable pub teardown : ℕ → PowerState S → Option (PowerState S)
  unfolding flush_cache
  teardown n system = elim (flush_cache bus new n system.hardware) [
    | none ↦ none
    | some s ↦ some (record system { hardware = disable s })
  ]

  unfoldable pub shutdown : ℕ → PowerState S → ShutdownEnd S
  unfolding teardown power_ports
  shutdown n system = elim (teardown n system) [
    | none ↦ still_busy
    | some down ↦ elim (write_string (utf8 farewell) down.writer) [
      | none ↦ panicked
      | some w ↦ off (record down { hardware = power_ports bus down.hardware; writer = w })
    ]
  ]
