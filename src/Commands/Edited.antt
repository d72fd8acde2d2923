-- ===== src/Commands/Edited.antt =====
-- A whole session of the editor (src/editor/mod.rs: `run_editor`; src/commands.rs: `run_edit`).
use sil_os.Prelude.{
  ◌<◌, ◌≡◌, Bool, true, false, if◌then◌else◌, Option, none, some, List, [], ◌∷◌, codes,
}
use sil_os.Risp.System.{CmdResult, cmd_runs_on}
use sil_os.Fat16.{Bpb}
use sil_os.Fat16.Sound.{IsSound}
use sil_os.Editor.{Editor}
use sil_os.Editor.Safe.{IsEditor}
use sil_os.Commands.{Kernel, Keyboard, DecodedKey, unicode}
use sil_os.Commands.Output.{worked}
use sil_os.Commands.Session.{is_escape, Drained, editing, escaped, broken}

-- A key that types a one-byte character, or moves.
abbrev pub IsPlainKey : Option DecodedKey → Type 0
IsPlainKey (some (unicode c)) = c < 0x80
IsPlainKey _ = Unit

-- After the keys of one poll the cursor still is in the text, and the session goes on with the
-- decoder's state unless Escape was typed.
abbrev Drains : {E K : Type 0} → Option K → Drained E K → Type 0
Drains typed (editing keyboard e needs_redraw) = (typed ≡ some keyboard) × IsEditor e
Drains typed (escaped e rest) = (typed ≡ none) × IsEditor e
Drains typed broken = ⊥

-- What a session comes to: it waits for keys if Escape was not typed, and has ended and left a sound
-- volume if it was.
pub data Edited {E : Type 0} (b : Bpb) : Bool → CmdResult (Kernel E) → Type 0 where
  edits_on : Edited b false cmd_runs_on
  ended : (k : Kernel E) → IsSound b k.disk → Edited b true (worked (codes "Worked") k)

module _ {E K : Type 0} (kb : Keyboard E K) where
  -- The decoder's state behind the events of one poll, or `none` where one of them is Escape.
  unfoldable pub after_keys : List E → K → Option K
  after_keys [] keyboard = some keyboard
  after_keys (event ∷ queue) keyboard =
      let (keyboard', decoded) = kb.process_keyevent event keyboard in
      let rest = after_keys queue keyboard' in
      elim decoded [ none ↦ rest | some key ↦ if is_escape key then none else rest ]

  -- Whether Escape is typed in one of the polls.
  unfoldable pub types_escape : List (List E) → K → Bool
  unfolding after_keys
  types_escape [] keyboard = false
  types_escape (queue ∷ polls) keyboard = elim (after_keys queue keyboard) [
    | none ↦ true
    | some keyboard' ↦ types_escape polls keyboard'
  ]
