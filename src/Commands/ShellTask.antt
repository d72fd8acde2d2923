-- ===== src/Commands/ShellTask.antt =====
-- The task that reads command lines and runs them (src/commands.rs: `shell_task`).
use sil_os.Prelude.{
  ℕ, zero, suc, ◌%◌, Bool, true, false, Option, none, some, List, [], ◌∷◌, ◌++◌, ◌==◌,
  if◌then◌else◌, codes,
}
use sil_os.Risp.{Token}
use sil_os.Risp.System.{
  Floats, CmdResult, success, process_error, lookup_error, cmd_panics, cmd_runs_on,
}
use sil_os.Vga.{delete_byte}
use sil_os.Shell.{Shell, add, pop_char, getcmd, clear_line}
use sil_os.Commands.{
  Kernel, Keyboard, DecodedKey, unicode, arrow_left, arrow_right, arrow_up, arrow_down,
  other_raw_key,
}
use sil_os.Commands.Output.{print, println}
use sil_os.Commands.Run.{run_cmd}

-- Where a round of the loop leaves the task; `halts` is a panic, `stays` a command that does not
-- return within the fuel.
pub data Round (E K : Type 0) : Type 0 where
  waits : K → Kernel E → Round E K
  halts : Round E K
  stays : Round E K

module _ {E : Type 0} where
  abbrev pub with_shell : (Shell → Shell) → Option (Kernel E) → Option (Kernel E)
  with_shell f none = none
  with_shell f (some k) = some (record k { shell = f k.shell })

  abbrev pub rubbed : Kernel E → Option (Kernel E)
  rubbed k = elim (delete_byte k.writer) [ none ↦ none | some w ↦ some (record k { writer = w }) ]

  -- One key, with whether it ends the line; `c as u8` keeps the low byte.
  abbrev pub pending : Bool → Option (Kernel E) → Option (Kernel E × Bool)
  pending p none = none
  pending p (some k) = some (k, p)

  unfoldable pub shell_key : DecodedKey → Bool → Kernel E → Option (Kernel E × Bool)
  unfolding print delete_byte
  shell_key (unicode c) p k =
      if c == 0x8
      then pending p (with_shell pop_char (rubbed k))
      else if c == b'\n'
      then pending true (print (codes "\n") k)
      else pending p (with_shell (add (c % 256)) (print (c ∷ []) k))
  shell_key arrow_left p k = some (k, p)
  shell_key arrow_right p k = some (k, p)
  shell_key arrow_up p k = some (k, p)
  shell_key arrow_down p k = some (k, p)
  shell_key other_raw_key p k = some (k, p)

module _ {E K : Type 0} (kb : Keyboard E K) where
  unfoldable pub shell_keys : List E → K → Bool → Kernel E → Option (K × Kernel E × Bool)
  unfolding shell_key
  shell_keys [] keyboard p k = some (keyboard, k, p)
  shell_keys (event ∷ queue) keyboard p k =
      let (keyboard', decoded) = kb.process_keyevent event keyboard in
      elim decoded [
        | none ↦ shell_keys queue keyboard' p k
        | some key ↦ elim (shell_key key p k) [
          | none ↦ none
          | some (k', p') ↦ shell_keys queue keyboard' p' k'
        ]
      ]

  -- The prompt, which ends the handling of a line.
  abbrev pub prompted : K → Option (Kernel E) → Round E K
  prompted keyboard none = halts
  prompted keyboard (some k) = elim (print (codes "> ") k) [
    | none ↦ halts
    | some k' ↦ waits keyboard k'
  ]

  -- What is printed of a command's result.
  abbrev pub reported : K → CmdResult (Kernel E) → Round E K
  reported keyboard (success code print_code k) =
      prompted keyboard (if print_code then println code k else some k)
  reported keyboard (process_error code k) = prompted keyboard (println (codes "Error: " ++ code) k)
  reported keyboard (lookup_error code k) = prompted keyboard (println (codes "Error: " ++ code) k)
  reported keyboard cmd_panics = halts
  reported keyboard cmd_runs_on = stays

  module _ {F : Type 0} (fl : Floats F) (is_space : ℕ → Bool) (fuel : ℕ) where
    -- The words of a line are not empty, and neither is the first of them.
    abbrev pub run_line : K → Option (List Token) → Kernel E → Round E K
    run_line keyboard none k = prompted keyboard (some k)
    run_line keyboard (some cmd_vec) k = reported keyboard (run_cmd fl kb is_space fuel cmd_vec k)

    unfoldable pub command_line : K → Kernel E → Round E K
    unfolding run_cmd getcmd clear_line
    command_line keyboard k =
        run_line keyboard (getcmd is_space k.shell)
          (record k { shell = clear_line is_space k.shell })

    -- One round: the keys of a poll, then the line if one has ended.
    unfoldable pub shell_round : List E → K → Kernel E → Round E K
    unfolding shell_keys command_line
    shell_round queue keyboard k = elim (shell_keys queue keyboard false k) [
      | none ↦ halts
      | some (keyboard', k', p) ↦ if p then command_line keyboard' k' else waits keyboard' k'
    ]

    -- `shell_task`, for as many rounds as `rounds`, or until the polls run out.
    unfoldable pub shell_task : ℕ → K → Kernel E → Round E K
    unfolding shell_round
    shell_task zero keyboard k = waits keyboard k
    shell_task (suc rounds) keyboard k = elim k.polls [
      | [] ↦ waits keyboard k
      | queue ∷ polls ↦ elim (shell_round queue keyboard (record k { polls = polls })) [
        | waits keyboard' k' ↦ shell_task rounds keyboard' k'
        | halts ↦ halts
        | stays ↦ stays
      ]
    ]
