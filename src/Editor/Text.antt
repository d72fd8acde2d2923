-- ===== src/Editor/Text.antt =====
-- Loading and saving text, and the names of its files (src/editor/mod.rs).
use sil_os.Prelude.{
  ℕ, ◌-◌, ◌&&◌, List, [], ◌∷◌, ◌++◌, leb, ◌==◌, if◌then◌else◌, is_empty, replicate, take, overwrite,
  map,
}
use sil_os.Editor.{Line, Editor, at}

-- A carriage return before a line's end belongs to the line's end.
abbrev pub strip_cr : Line → Line
strip_cr [] = []
strip_cr (c ∷ s) = if c == b'\r' && is_empty s then [] else c ∷ strip_cr s

-- `str::lines`, with the line that is being read.
unfoldable pub lines_from : Line → List ℕ → List Line
lines_from current [] = if is_empty current then [] else current ∷ []
lines_from current (c ∷ text) =
    if c == b'\n'
    then strip_cr current ∷ lines_from [] text
    else lines_from (current ++ c ∷ []) text

-- `Editor::new`
unfoldable pub editor_new : List ℕ → Editor
unfolding lines_from
editor_new initial_data =
    let lines = lines_from [] initial_data in at (if is_empty lines then [] ∷ [] else lines) 0 0

-- `lines.join("\n")`
abbrev pub join : List Line → List ℕ
join [] = []
join (l ∷ []) = l
join (l ∷ k ∷ lines) = l ++ (b'\n' ∷ join (k ∷ lines))

abbrev pub to_ascii_uppercase : ℕ → ℕ
to_ascii_uppercase c = if leb b'a' c && leb c b'z' then c - 32 else c

-- `format_fat16_name`, on the bytes of the two arguments.
abbrev pub format_fat16_name : List ℕ → List ℕ → List ℕ × List ℕ
format_fat16_name name_str ext_str = (
  overwrite 0 (map to_ascii_uppercase (take 8 name_str)) (replicate 8 0x20),
  overwrite 0 (map to_ascii_uppercase (take 3 ext_str)) (replicate 3 0x20),
)
