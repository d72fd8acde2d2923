-- ===== src/Commands/Table.antt =====
-- The table of commands (src/commands.rs: `init_cmds`, `get_command_list`, `bind`).
use sil_os.Prelude.{Option, none, some, List, [], ◌∷◌, if◌then◌else◌, codes, join_by, same_bytes}
use sil_os.Risp.{Token}
use sil_os.Risp.System.{CmdResult, process_error}
use sil_os.Commands.{
  CommandFn, pong_fn, clear_fn, history_fn, echo_fn, parse_cmd_fn, bind_fn, read_fn, write_fn,
  read_as_string_fn, format_disk_fn, make_file_fn, cat_file_fn, run_file_fn, edit_fn, run_edit_fn,
  quit_fn, bound, Kernel,
}
use sil_os.Commands.Output.{worked}

-- `BTreeMap::insert` and `BTreeMap::get`. Nothing shows the order of the table.
unfoldable pub table_insert :
    Token → CommandFn → List (Token × CommandFn) → List (Token × CommandFn)
table_insert name f [] = (name, f) ∷ []
table_insert name f ((other, g) ∷ c) =
    if same_bytes other name then (name, f) ∷ c else (other, g) ∷ table_insert name f c

unfoldable pub table_get : Token → List (Token × CommandFn) → Option CommandFn
table_get name [] = none
table_get name ((other, g) ∷ c) = if same_bytes other name then some g else table_get name c

abbrev pub table_keys : List (Token × CommandFn) → List Token
table_keys [] = []
table_keys ((name, f) ∷ c) = name ∷ table_keys c

abbrev pub insert_all :
    List (Token × CommandFn) → List (Token × CommandFn) → List (Token × CommandFn)
insert_all [] c = c
insert_all ((name, f) ∷ rest) c = insert_all rest (table_insert name f c)

abbrev pub commands : List (Token × CommandFn)
commands =
    (codes "pong", pong_fn)
    ∷ (codes "clear", clear_fn)
    ∷ (codes "history", history_fn)
    ∷ (codes "echo", echo_fn)
    ∷ (codes "parse", parse_cmd_fn)
    ∷ (codes "bind", bind_fn)
    ∷ (codes "read", read_fn)
    ∷ (codes "write", write_fn)
    ∷ (codes "show", read_as_string_fn)
    ∷ (codes "formatd", format_disk_fn)
    ∷ (codes "mkdir", make_file_fn)
    ∷ (codes "cat", cat_file_fn)
    ∷ (codes "run", run_file_fn)
    ∷ (codes "edit", edit_fn)
    ∷ (codes "eden", run_edit_fn)
    ∷ (codes "quit", quit_fn)
    ∷ []

module _ {E : Type 0} where
  unfoldable pub init_cmds : Kernel E → Kernel E
  unfolding table_insert
  init_cmds k = record k { commands = insert_all commands k.commands }

  abbrev pub get_command_list : Kernel E → List Token
  get_command_list k = table_keys k.commands

  -- `bind` takes the name and the words of the script.
  unfoldable pub bind : List Token → Kernel E → CmdResult (Kernel E)
  unfolding table_insert
  bind (arg0 ∷ command_name ∷ word ∷ words) k = worked (codes "Bound successfully") (record k {
    commands = table_insert command_name (bound (join_by (codes " ") (word ∷ words))) k.commands;
  })
  bind _ k = process_error (codes "invalid number of args") k
