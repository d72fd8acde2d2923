-- ===== src/Harness.antt =====
-- The runner of the kernel's tests (src/lib.rs: `Testable`, `test_runner`, `test_panic_handler`,
-- `test_kernel_main`) and the serial port it reports to (src/serial.rs). The port is the uart_16550
-- crate's: what it does with text is a parameter. A test may do anything to the machine, and
-- returns or panics.
pub mod Reported
use sil_os.Prelude.{
  ℕ, Bool, if◌then◌else◌, Option, none, some, List, [], ◌∷◌, ◌++◌, codes, utf8, show_nat, length,
}
use sil_os.Vga.{Writer, write_string, set_color, color_code_new, red, black}
use sil_os.Ide.{Bus}
use sil_os.Power.{exit_success, exit_failed, exit_qemu}

-- What is connected to the ports, and the screen. `writer_locked` says whether code that did not
-- return, a test that panicked, holds the lock of the screen's writer.
pub record TestMachine (S : Type 0) : Type 0 where
  pub hardware : S
  pub writer : Writer
  pub writer_locked : Bool

-- A test returns, or panics with this text.
pub data TestEnd (S : Type 0) : Type 0 where
  returned : TestMachine S → TestEnd S
  panicked : List ℕ → TestMachine S → TestEnd S

-- How the test kernel ends: it does nothing more; or its panic handler waits for the lock of the
-- writer; or printing in the handler panics.
pub data KernelEnd (S : Type 0) : Type 0 where
  ended : TestMachine S → KernelEnd S
  waits : TestMachine S → KernelEnd S
  panics_again : KernelEnd S

-- `dyn Testable`: `type_name` and the call.
pub record Testable (S : Type 0) : Type 0 where
  pub type_name : List ℕ
  pub call : TestMachine S → TestEnd S

module _ {S : Type 0} (bus : Bus S) (send : List ℕ → S → S) where
  -- `serial_print!`
  unfoldable pub serial_print : List ℕ → TestMachine S → TestMachine S
  serial_print text m = record m { hardware = send text m.hardware }

  abbrev pub serial_println : List ℕ → TestMachine S → TestMachine S
  serial_println text m = serial_print (text ++ codes "\n") m

  -- After a panic of `self()` nothing else runs.
  abbrev pub after_call : TestEnd S → (TestMachine S → TestEnd S) → TestEnd S
  after_call (returned m) next = next m
  after_call (panicked info m) next = panicked info m

  -- `Testable::run`
  unfoldable pub run : Testable S → TestMachine S → TestEnd S
  unfolding serial_print
  run test m =
      after_call (test.call (serial_print (test.type_name ++ codes "...\t") m))
        (λ k. returned (serial_println (codes "[ok]") k))

  unfoldable pub run_tests : List (Testable S) → TestMachine S → TestEnd S
  unfolding run
  run_tests [] m = returned m
  run_tests (test ∷ tests) m = after_call (run test m) (run_tests tests)

  abbrev pub exit_with_success : TestMachine S → TestMachine S
  exit_with_success m = record m { hardware = exit_qemu bus exit_success m.hardware }

  -- `test_runner`
  unfoldable pub test_runner : List (Testable S) → TestMachine S → TestEnd S
  unfolding run_tests exit_qemu
  test_runner tests m =
      after_call
        (run_tests tests
          (serial_println (codes "Running " ++ (show_nat (length tests) ++ codes " tests")) m))
        (λ k. returned (exit_with_success k))

  -- `let _ = write!(..)`: an index out of bounds would be a panic within the handler.
  abbrev pub written_in_red : List ℕ → Writer → Option Writer
  written_in_red info w = write_string (utf8 info) (set_color (color_code_new red black) w)

  -- `test_panic_handler`, up to its endless loop.
  unfoldable pub test_panic_handler : List ℕ → TestMachine S → KernelEnd S
  unfolding serial_print exit_qemu
  test_panic_handler info m =
      let told = serial_print (codes "\u{1b}[31m" ++ (info ++ codes "\u{1b}[0m")) m in
      if m.writer_locked then waits told else elim (written_in_red info m.writer) [
        | none ↦ panics_again
        | some w ↦
            ended (record told { hardware = exit_qemu bus exit_failed told.hardware; writer = w })
      ]

  abbrev pub after_tests : TestEnd S → KernelEnd S
  after_tests (returned m) = ended m
  after_tests (panicked info m) = test_panic_handler info m

  -- `test_kernel_main` behind `init`, until the processor does nothing more.
  unfoldable pub test_kernel_main : List (Testable S) → TestMachine S → KernelEnd S
  unfolding test_runner test_panic_handler
  test_kernel_main tests m = after_tests (test_runner tests m)
