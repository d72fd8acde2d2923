-- ===== src/Risp/System.antt =====
-- What the evaluator takes from outside: floats, and the rest of the kernel as `run_cmd` shows it
-- (src/programReturn.rs has `Success` and `ProcessError`).
use sil_os.Prelude.{ℕ, Bool, Option, List, ℤ}
use sil_os.Risp.{Token}

-- What the code uses of `f64` and of the casts between it and `i64`; `show` and `show_i64` are
-- `to_string`, `parse_float` is `str::parse`.
pub record Floats (F : Type 0) : Type 0 where
  pub zero_f : F
  pub one_f : F
  pub add : F → F → F
  pub sub : F → F → F
  pub mul : F → F → F
  pub div : F → F → F
  pub eq : F → F → Bool
  pub lt : F → F → Bool
  pub le : F → F → Bool
  pub as_i64 : F → ℤ
  pub as_f64 : ℤ → F
  pub show : F → List ℕ
  pub show_i64 : ℤ → List ℕ
  pub parse_float : Token → Option F

-- What a command comes to: `Success`, `ProcessError` of the command or of its lookup, a panic, or
-- no end within the fuel. The world of type `W` is what commands read and change.
pub data CmdResult (W : Type 0) : Type 0 where
  success : List ℕ → Bool → W → CmdResult W
  process_error : List ℕ → W → CmdResult W
  lookup_error : List ℕ → W → CmdResult W
  cmd_panics : CmdResult W
  cmd_runs_on : CmdResult W

pub record System (W : Type 0) : Type 0 where
  pub run_cmd : List Token → W → CmdResult W
  -- `none` is a panic.
  pub println : List ℕ → W → Option W
  pub get_command_list : W → List Token
