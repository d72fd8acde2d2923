-- ===== src/Commands/Session.antt =====
-- A session of the editor (src/editor/mod.rs: `run_editor`; src/commands.rs: `run_edit`). `none` is a
-- panic of the editor.
use sil_os.Prelude.{
  ℕ, Bool, true, false, Option, none, some, List, [], ◌∷◌, ◌++◌, ◌==◌, if◌then◌else◌, codes, utf8,
  from_utf8_lossy, get_elem?,
}
use sil_os.Risp.{Token}
use sil_os.Risp.System.{CmdResult, cmd_panics, cmd_runs_on}
use sil_os.Fat16.{Bpb, Disk, Run, ok, err, out_of_fuel}
use sil_os.Fat16.Root.{find_file}
use sil_os.Fat16.Data.{read_file}
use sil_os.Fat16.File.{write_new_file, overwrite_file}
use sil_os.Vga.{clear}
use sil_os.Editor.{
  Editor, backspace, insert_char, move_cursor_left, move_cursor_right, move_cursor_up,
  move_cursor_down,
}
use sil_os.Editor.Text.{editor_new, join, format_fat16_name}
use sil_os.Editor.Draw.{draw}
use sil_os.Commands.{
  Kernel, Keyboard, DecodedKey, unicode, arrow_left, arrow_right, arrow_up, arrow_down,
  other_raw_key,
}
use sil_os.Commands.Names.{split_dot}
use sil_os.Commands.Output.{worked}

abbrev pub or_txt : Option Token → Token
or_txt none = codes "TXT"
or_txt (some ext) = ext

-- The two parts of the file's name, with their defaults.
unfoldable pub edit_name : List Token → Token × Token
unfolding split_dot
edit_name args = elim (get_elem? args 1) [
  | none ↦ (codes "UNNAMED", codes "TXT")
  | some tok ↦ elim (split_dot tok) [
    | some (name, ext) ↦ (name, ext)
    | none ↦ (tok, or_txt (get_elem? args 2))
  ]
]

-- `format_fat16_name` of the bytes of both.
abbrev pub fat_name : List Token → List ℕ × List ℕ
fat_name args = let (name, ext) = edit_name args in format_fat16_name (utf8 name) (utf8 ext)

abbrev pub lossy_text : Option (List ℕ) → Option (List ℕ)
lossy_text none = none
lossy_text (some file_bytes) = some (from_utf8_lossy file_bytes)

-- `initial_data`; `none` is a chain of clusters without an end.
unfoldable pub initial_data : List ℕ × List ℕ → Option Bpb → Disk → Option (List ℕ)
unfolding find_file read_file from_utf8_lossy
initial_data names none d = some []
initial_data (name, ext) (some b) d = elim (find_file b name ext d) [
  | none ↦ some []
  | some entry ↦ lossy_text (read_file b entry d)
]

-- `let _ = fs.overwrite_file(..)`: an error leaves what was written.
abbrev pub disk_after : Run (Unit {0}) → Option Disk
disk_after (ok u d) = some d
disk_after (err e d) = some d
disk_after out_of_fuel = none

-- What Escape does with the text.
unfoldable pub save : List ℕ × List ℕ → Editor → Option Bpb → Disk → Option Disk
unfolding find_file overwrite_file write_new_file utf8
save names e none d = some d
save (name, ext) e (some b) d = elim (find_file b name ext d) [
  | some entry ↦ disk_after (overwrite_file b name ext (utf8 (join e.lines)) d)
  | none ↦ disk_after (write_new_file b name ext (utf8 (join e.lines)) d)
]

-- A key other than Escape.
unfoldable pub edit_key : DecodedKey → Editor → Option Editor
unfolding backspace insert_char move_cursor_left move_cursor_right move_cursor_up move_cursor_down
edit_key (unicode c) e = if c == 0x8 then backspace e else insert_char c e
edit_key arrow_left e = move_cursor_left e
edit_key arrow_right e = move_cursor_right e
edit_key arrow_up e = move_cursor_up e
edit_key arrow_down e = move_cursor_down e
edit_key other_raw_key e = some e

abbrev pub is_escape : DecodedKey → Bool
is_escape (unicode c) = c == 0x1b
is_escape _ = false

-- Where the keys of one poll leave the session: still editing, with whether to draw; at Escape, with
-- the events behind it; or in a panic.
pub data Drained (E K : Type 0) : Type 0 where
  editing : K → Editor → Bool → Drained E K
  escaped : Editor → List E → Drained E K
  broken : Drained E K

module _ {E K : Type 0} (kb : Keyboard E K) where
  -- `while let Some(key_event) = crate::input::pop_key()`
  unfoldable pub drain : List E → K → Editor → Bool → Drained E K
  unfolding edit_key
  drain [] keyboard e needs_redraw = editing keyboard e needs_redraw
  drain (event ∷ queue) keyboard e needs_redraw =
      let (keyboard', decoded) = kb.process_keyevent event keyboard in
      elim decoded [
        | none ↦ drain queue keyboard' e needs_redraw
        | some key ↦ elim (is_escape key) [
          | true ↦ escaped e queue
          | false ↦ elim (edit_key key e) [
            | none ↦ broken
            | some e' ↦ drain queue keyboard' e' true
          ]
        ]
      ]

  -- `editor.draw(&mut terminal)`
  abbrev pub drawn : Editor → Kernel E → Kernel E
  drawn e k =
      let (w, ports) = draw e k.writer in record k { writer = w; cursor = k.cursor ++ ports }

  -- The screen is cleared before the text is saved.
  abbrev pub saved : Kernel E → Option Disk → CmdResult (Kernel E)
  saved k none = cmd_runs_on
  saved k (some d) = worked (codes "Worked") (record k { writer = clear k.writer; disk = d })

  -- The loop over the polls to come, which runs on where they run out.
  unfoldable pub session :
      List ℕ × List ℕ → List (List E) → K → Editor → Kernel E → CmdResult (Kernel E)
  unfolding drain draw save
  session names [] keyboard e k = cmd_runs_on
  session names (queue ∷ polls) keyboard e k = elim (drain queue keyboard e false) [
    | broken ↦ cmd_panics
    | escaped e' rest ↦ saved (record k { polls = rest ∷ polls }) (save names e' k.fs k.disk)
    | editing keyboard' e' needs_redraw ↦
        session names polls keyboard' e' (if needs_redraw then drawn e' k else k)
  ]

  unfoldable pub run_edit : List Token → Kernel E → CmdResult (Kernel E)
  unfolding session initial_data edit_name editor_new draw
  run_edit args k = elim (initial_data (fat_name args) k.fs k.disk) [
    | none ↦ cmd_runs_on
    | some text ↦
        session (fat_name args) k.polls kb.new (editor_new text) (drawn (editor_new text) k)
  ]
