-- ===== src/Tests/Sessions.antt =====
-- Sessions of the editor at concrete inputs (src/editor/mod.rs).
use sil_os.Prelude.{
  ℕ, ◌%◌, ◌≡◌, refl, arith, true, List, [], ◌∷◌, some, codes, utf8, encode_char, str_nil, str_cons,
}
use sil_os.Fat16.{Disk}
use sil_os.Fat16.Mount.{format_bpb}
use sil_os.Editor.{Editor, at}
use sil_os.Editor.Saved.{plain, plain_nil, IsText, last_line, line}
use sil_os.Pong.{other_key, down}
use sil_os.Commands.{Kernel, Keyboard, unicode}
use sil_os.Commands.Session.{save}
use sil_os.Commands.Reopened.{Reopened, save-Reopened}
use sil_os.Commands.Edited.{types_escape, Edited}
use sil_os.Tests.Files.{notes_name, txt}
use sil_os.Tests.Lines.{kernel}
use sil_os.Tests.Volumes.{noted, noted-Reached}
use sil_os.Fat16.Sound.Reached.{Reached-IsSound}

abbrev two_lines : Editor
two_lines = at ((b'a' ∷ []) ∷ (b'b' ∷ []) ∷ []) 0 0

two_lines-IsText : IsText two_lines.lines
two_lines-IsText =
    line (plain (omega arith) (omega arith) plain_nil)
      (last_line (plain (omega arith) (omega arith) plain_nil) (omega arith))

save-Reopened_example :
    (d' : Disk) × (save (notes_name, txt) two_lines (some format_bpb) noted ≡ some d')
    × Reopened format_bpb notes_name txt two_lines noted d'
unfolding utf8 encode_char
save-Reopened_example =
    save-Reopened format_bpb notes_name txt two_lines two_lines-IsText
      (str_cons refl (str_cons refl (str_cons refl str_nil))) noted (Reached-IsSound noted-Reached)
      refl refl (omega arith) (omega arith)

-- Keys that type their code, of seven bits.
abbrev ascii_keys : Keyboard ℕ (Unit {0})
ascii_keys = record {
  new = tt;
  process_keyevent = λ c s. (s, some (unicode (c % 128)));
  code = λ c. other_key;
  state = λ c. down;
}

abbrev typing : Kernel ℕ
typing = record kernel { polls = (b'h' ∷ b'i' ∷ 0x8 ∷ []) ∷ (b'!' ∷ 0x1b ∷ []) ∷ [] }

abbrev edit_notes : List (List ℕ)
edit_notes = codes "edit" ∷ codes "notes.txt" ∷ []

-- The keys have an Escape among them.
typing-escape : types_escape ascii_keys typing.polls tt ≡ true
unfolding types_escape
typing-escape = refl
