-- ===== src/Commands/Output.antt =====
-- Printing, and the commands that only print (src/commands.rs: `echo`, `clear`, `history`, `quit`;
-- src/shell.rs: `history`; src/vga_buffer.rs: `_print`).
use sil_os.Prelude.{
  ℕ, false, Option, none, some, List, [], ◌∷◌, ◌++◌, ltb, if◌then◌else◌, length, codes, join_by,
  drop, utf8,
}
use sil_os.Risp.{Token}
use sil_os.Risp.System.{CmdResult, success, process_error, cmd_panics, cmd_runs_on}
use sil_os.Vga.{write_string, clear}
use sil_os.Commands.{Kernel}

-- `Shell::history`: the words of each line, each with a space behind it.
abbrev pub history_line : List Token → List ℕ
history_line [] = codes "\n"
history_line (word ∷ words) = word ++ (codes " " ++ history_line words)

abbrev pub history_text : List (List Token) → List ℕ
history_text [] = []
history_text (line ∷ lines) = history_line line ++ history_text lines

module _ {E : Type 0} where
  -- `print!`; `none` is a panic.
  unfoldable pub print : List ℕ → Kernel E → Option (Kernel E)
  unfolding write_string
  print s k = elim (write_string (utf8 s) k.writer) [
    | none ↦ none
    | some w ↦ some (record k { writer = w })
  ]

  -- `println!`
  abbrev pub println : List ℕ → Kernel E → Option (Kernel E)
  println s k = print (s ++ codes "\n") k

  -- What follows a `print!`.
  abbrev pub printed : Option (Kernel E) → (Kernel E → CmdResult (Kernel E)) → CmdResult (Kernel E)
  printed none next = cmd_panics
  printed (some k) next = next k

  abbrev pub worked : List ℕ → Kernel E → CmdResult (Kernel E)
  worked code k = success code false k

  -- `println!` in a command, and what follows it.
  abbrev pub say : List ℕ → Kernel E → (Kernel E → CmdResult (Kernel E)) → CmdResult (Kernel E)
  say s k next = printed (println s k) next

  unfoldable pub echo : List Token → Kernel E → CmdResult (Kernel E)
  unfolding print
  echo args k =
      if ltb (length args) 2
      then process_error (codes "Not enough arguments!") k
      else say (join_by (codes " ") (drop 1 args)) k (worked (codes "worked"))

  unfoldable pub clear_cmd : List Token → Kernel E → CmdResult (Kernel E)
  unfolding clear
  clear_cmd args k = worked (codes "worked") (record k { writer = clear k.writer })

  unfoldable pub history : List Token → Kernel E → CmdResult (Kernel E)
  unfolding print
  history args k = printed (print (history_text k.shell.past_cmd) k) (worked (codes "worked"))

  -- `crate::power::shutdown` does not return.
  unfoldable pub quit : List Token → Kernel E → CmdResult (Kernel E)
  unfolding print
  quit args k = say (codes "Shutting down...") k λ k'. cmd_runs_on
