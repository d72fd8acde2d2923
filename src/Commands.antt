-- ===== src/Commands.antt =====
-- The commands of the shell (src/commands.rs) and the state that they share: the mounted file
-- system, the drive, the screen, the shell's line and history, the table of commands, and what the
-- key queue will hold at each poll. A command runs to its end before the next: what other tasks do
-- while it awaits is outside.
pub mod Names
pub mod Output
pub mod Sectors
pub mod Files
pub mod Session
pub mod Table
pub mod Run
pub mod ShellTask
pub mod Stored
pub mod Reopened
pub mod Edited
pub mod Shown
pub mod Bound
pub mod SameFile
use sil_os.Prelude.{ℕ, Bool, Option, List}
use sil_os.Risp.{Token}
use sil_os.Fat16.{Bpb, Disk}
use sil_os.Vga.{Writer}
use sil_os.Shell.{Shell}
use sil_os.Pong.{KeyCode, KeyState}

-- The functions of `init_cmds`, and the closures that `bind` makes of a script.
pub data CommandFn : Type 0 where
  pong_fn clear_fn history_fn echo_fn parse_cmd_fn bind_fn read_fn write_fn : CommandFn
  read_as_string_fn format_disk_fn make_file_fn cat_file_fn run_file_fn edit_fn : CommandFn
  run_edit_fn quit_fn : CommandFn
  bound : List ℕ → CommandFn

-- What `pc_keyboard` makes of key events of type `E`, with its state of type `K`.
pub data DecodedKey : Type 0 where
  unicode : ℕ → DecodedKey
  arrow_left arrow_right arrow_up arrow_down other_raw_key : DecodedKey

pub record Keyboard (E K : Type 0) : Type 0 where
  pub new : K
  pub process_keyevent : E → K → K × Option DecodedKey
  pub code : E → KeyCode
  pub state : E → KeyState

-- `FS`, `IDE`, `WRITER`, `SHELL`, `COMMANDS`, `LAUNCH_PONG` and `KEY_EVENT_QUEUE`: the queue at each
-- poll to come. `cursor` has the writes to the cursor's ports.
pub record Kernel (E : Type 0) : Type 0 where
  pub fs : Option Bpb
  pub disk : Disk
  pub writer : Writer
  pub cursor : List (ℕ × ℕ)
  pub shell : Shell
  pub commands : List (Token × CommandFn)
  pub launch_pong : Bool
  pub polls : List (List E)
