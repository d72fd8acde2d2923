-- ===== src/Commands/Run.antt =====
-- Running a command (src/commands.rs: `run_cmd`, `parse_cmd`,
-- `run_file`, `pong`). Scripts run commands and commands run
-- scripts: `fuel` bounds how deep, and is what each script's evaluation gets.
use sil_os.Prelude.{
  ℕ, zero, suc, Bool, true, false, Option, none, some, List, [], ◌∷◌, ◌++◌, codes, join_by, drop,
  from_utf8,
}
use sil_os.Risp.{Token}
use sil_os.Risp.System.{Floats, CmdResult, success, process_error, lookup_error, cmd_runs_on}
use sil_os.Risp.Interpret.{interpret}
use sil_os.Pong.{PongGame, Outcome, exited, player_1_wins, player_2_wins}
use sil_os.Commands.{
  CommandFn, pong_fn, clear_fn, history_fn, echo_fn, parse_cmd_fn, bind_fn, read_fn, write_fn,
  read_as_string_fn, format_disk_fn, make_file_fn, cat_file_fn, run_file_fn, edit_fn, run_edit_fn,
  quit_fn, bound, Kernel, Keyboard,
}
use sil_os.Commands.Names.{resolve_name_ext, trim_nul}
use sil_os.Commands.Output.{println, worked, echo, clear_cmd, history, quit}
use sil_os.Commands.Sectors.{read, write, read_as_string}
use sil_os.Commands.Files.{
  Found, bytes, not_found, not_mounted, endless, lookup_file, dotted, cat_file, make_file, edit,
  format_disk,
}
use sil_os.Commands.Session.{run_edit}
use sil_os.Pong
use sil_os.Commands.Table.{table_get, get_command_list, bind}

abbrev pub game_code : Outcome → List ℕ
game_code exited = codes "Game Exited"
game_code player_1_wins = codes "player 1 wins!"
game_code player_2_wins = codes "player 2 wins!"

module _ {E : Type 0} where
  abbrev pub after_game :
      Kernel E → Option (Outcome × PongGame × List (List E)) → CmdResult (Kernel E)
  after_game k none = cmd_runs_on
  after_game k (some (r, game, polls)) = success (game_code r) true (record k {
    writer = record k.writer { buffer = game.canvas };
    launch_pong = false;
    polls = polls;
  })

module _ {F E K : Type 0} (fl : Floats F) (kb : Keyboard E K) (is_space : ℕ → Bool) where
  -- The game draws on the buffer of the screen.
  unfoldable pub pong : List Token → Kernel E → CmdResult (Kernel E)
  pong args k =
      after_game (record k { launch_pong = true })
        (Pong.Run.run kb.code kb.state k.polls (Pong.new k.writer.buffer))

  module _ (fuel : ℕ) (run_cmd : List Token → Kernel E → CmdResult (Kernel E)) where
    -- `interpret`, in a kernel whose commands are run by `run_cmd`.
    abbrev pub run_interpret : List Token → Kernel E → CmdResult (Kernel E)
    run_interpret expr k =
        interpret fl
          (record { run_cmd = run_cmd; println = println; get_command_list = get_command_list })
          is_space fuel expr k

    unfoldable pub parse_cmd : List Token → Kernel E → CmdResult (Kernel E)
    unfolding interpret
    parse_cmd (arg0 ∷ word ∷ words) k =
        run_interpret (arg0 ∷ join_by (codes " ") (word ∷ words) ∷ []) k
    parse_cmd _ k = process_error (codes "expected at least two params") k

    abbrev pub run_found : List ℕ → List ℕ → List Token → Found → Kernel E → CmdResult (Kernel E)
    run_found name_str ext_str rest (bytes file_data) k = elim (from_utf8 file_data) [
      | none ↦ process_error (codes "Script contains invalid text formatting") k
      | some text ↦ run_interpret (codes "exec" ∷ trim_nul text ∷ rest) k
    ]
    run_found name_str ext_str rest not_found k =
        process_error (codes "Script " ++ (dotted name_str ext_str ++ codes " not found")) k
    run_found name_str ext_str rest not_mounted k =
        process_error (codes "File system not mounted!") k
    run_found name_str ext_str rest endless k = cmd_runs_on

    unfoldable pub run_file : List Token → Kernel E → CmdResult (Kernel E)
    unfolding resolve_name_ext lookup_file from_utf8 interpret
    run_file args k = elim (resolve_name_ext args 1) [
      | none ↦ process_error (codes "Usage: run <NAME.EXT | NAME EXT> [args...]") k
      | some (name_str, ext_str, next_idx) ↦
          run_found name_str ext_str (drop next_idx args) (lookup_file name_str ext_str k) k
    ]

    -- `f(cmd)`, with the closure that `bind` made.
    unfoldable pub call_command : CommandFn → List Token → Kernel E → CmdResult (Kernel E)
    unfolding pong clear_cmd history echo parse_cmd bind read write read_as_string format_disk
        make_file cat_file run_file edit run_edit quit
    call_command pong_fn = pong
    call_command clear_fn = clear_cmd
    call_command history_fn = history
    call_command echo_fn = echo
    call_command parse_cmd_fn = parse_cmd
    call_command bind_fn = bind
    call_command read_fn = read
    call_command write_fn = write
    call_command read_as_string_fn = read_as_string
    call_command format_disk_fn = format_disk
    call_command make_file_fn = make_file
    call_command cat_file_fn = cat_file
    call_command run_file_fn = run_file
    call_command edit_fn = edit
    call_command run_edit_fn = run_edit kb
    call_command quit_fn = quit
    call_command (bound lisp_code) =
        λ runtime_args. run_interpret (codes "exec" ∷ lisp_code ∷ drop 1 runtime_args)

    -- `run_cmd` and the future that it gives; a command of no words does nothing.
    unfoldable pub run_named : List Token → Kernel E → CmdResult (Kernel E)
    unfolding table_get call_command
    run_named [] k = worked [] k
    run_named (name ∷ args) k = elim (table_get name k.commands) [
      | none ↦ lookup_error (codes "'" ++ (name ++ codes "' command not found")) k
      | some f ↦ call_command f (name ∷ args) k
    ]

  unfoldable pub run_cmd : ℕ → List Token → Kernel E → CmdResult (Kernel E)
  unfolding run_named
  run_cmd zero cmd k = cmd_runs_on
  run_cmd (suc fuel) cmd k = run_named fuel (run_cmd fuel) cmd k
