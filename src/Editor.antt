-- ===== src/Editor.antt =====
-- The text editor (src/editor/mod.rs). A line is the list of its code points; the cursor's column
-- counts bytes of UTF-8, as the code's string offsets do. `none` is a panic: an offset that is not
-- a character boundary, or an index out of range.
pub mod Text
pub mod Draw
pub mod Edits
pub mod Moves
pub mod Saved
pub mod Safe
use sil_os.Prelude.{
  ℕ, zero, suc, ◌+◌, ◌-◌, Bool, true, false, ◌&&◌, Option, none, some, List, [], ◌∷◌, ◌++◌, ltb,
  leb, ◌==◌, if◌then◌else◌, length, is_empty, get_elem?, set, take, drop, replicate, overwrite,
}

abbrev pub Line : Type 0
Line = List ℕ

-- `char::len_utf8`
abbrev pub len_utf8 : ℕ → ℕ
len_utf8 c = if ltb c 0x80 then 1 else if ltb c 0x800 then 2 else if ltb c 0x10000 then 3 else 4

-- `str::len`
abbrev pub byte_len : Line → ℕ
byte_len [] = 0
byte_len (c ∷ s) = len_utf8 c + byte_len s

abbrev pub first_cons : ℕ → Option (Line × Line) → Option (Line × Line)
first_cons c none = none
first_cons c (some (before, after)) = some (c ∷ before, after)

-- The two sides of a byte offset, if it is a boundary between characters.
unfoldable pub split_at : ℕ → Line → Option (Line × Line)
split_at i [] = if i == 0 then some ([], []) else none
split_at i (c ∷ s) =
    let rest = split_at (i - len_utf8 c) s in
    if i == 0 then some ([], c ∷ s) else if leb (len_utf8 c) i then first_cons c rest else none

-- `String::insert`
abbrev pub insert_at : ℕ → ℕ → Line → Option Line
insert_at i c s = elim (split_at i s) [
  | none ↦ none
  | some (before, after) ↦ some (before ++ c ∷ after)
]

-- `String::remove`, which also panics at the end of the string.
abbrev pub remove_first : Line × Line → Option Line
remove_first (before, []) = none
remove_first (before, c ∷ after) = some (before ++ after)

abbrev pub remove_at : ℕ → Line → Option Line
remove_at i s = elim (split_at i s) [ none ↦ none | some parts ↦ remove_first parts ]

-- `Vec::insert` and `Vec::remove`, where the index is known to be in range.
abbrev pub insert_line : ℕ → Line → List Line → List Line
insert_line zero l lines = l ∷ lines
insert_line (suc y) l [] = []
insert_line (suc y) l (k ∷ lines) = k ∷ insert_line y l lines

abbrev pub remove_line : ℕ → List Line → List Line
remove_line y [] = []
remove_line zero (k ∷ lines) = lines
remove_line (suc y) (k ∷ lines) = k ∷ remove_line y lines

pub record Editor : Type 0 where
  pub lines : List Line
  pub cursor_x : ℕ
  pub cursor_y : ℕ

abbrev pub at : List Line → ℕ → ℕ → Editor
at lines x y = record { lines = lines; cursor_x = x; cursor_y = y }

unfoldable pub insert_newline : Editor → Option Editor
insert_newline e = elim (get_elem? e.lines e.cursor_y) [
  | none ↦ none
  | some line ↦ elim (split_at e.cursor_x line) [
    | none ↦ none
    | some (before, after) ↦
        let cut = set e.lines e.cursor_y before in
        some (at (insert_line (e.cursor_y + 1) after cut) 0 (e.cursor_y + 1))
  ]
]

unfoldable pub insert_plain : ℕ → Editor → Option Editor
insert_plain c e = elim (get_elem? e.lines e.cursor_y) [
  | none ↦ none
  | some line ↦ elim (insert_at e.cursor_x c line) [
    | none ↦ none
    | some line' ↦ some (at (set e.lines e.cursor_y line') (e.cursor_x + 1) e.cursor_y)
  ]
]

unfoldable pub insert_char : ℕ → Editor → Option Editor
unfolding insert_newline insert_plain
insert_char c e = if c == b'\n' then insert_newline e else insert_plain c e

-- The branch of `backspace` inside a line.
unfoldable pub backspace_char : Editor → Option Editor
backspace_char e = elim (get_elem? e.lines e.cursor_y) [
  | none ↦ none
  | some line ↦ elim (remove_at (e.cursor_x - 1) line) [
    | none ↦ none
    | some line' ↦ some (at (set e.lines e.cursor_y line') (e.cursor_x - 1) e.cursor_y)
  ]
]

-- The branch of `backspace` at the start of a line: it is joined to the one before.
unfoldable pub backspace_line : Editor → Option Editor
backspace_line e = elim (get_elem? e.lines e.cursor_y) [
  | none ↦ none
  | some current_line ↦
      let lines = remove_line e.cursor_y e.lines in
      elim (get_elem? lines (e.cursor_y - 1)) [
        | none ↦ none
        | some prev_line ↦ some (
            at (set lines (e.cursor_y - 1) (prev_line ++ current_line)) (byte_len prev_line)
              (e.cursor_y - 1))
      ]
]

unfoldable pub backspace : Editor → Option Editor
unfolding backspace_char backspace_line
backspace e =
    if ltb 0 e.cursor_x
    then backspace_char e
    else if ltb 0 e.cursor_y
    then backspace_line e
    else some e

-- `self.lines[y].len()`
abbrev pub line_len : Editor → ℕ → Option ℕ
line_len e y = elim (get_elem? e.lines y) [ none ↦ none | some line ↦ some (byte_len line) ]

unfoldable pub move_cursor_left : Editor → Option Editor
move_cursor_left e =
    if ltb 0 e.cursor_x
    then some (at e.lines (e.cursor_x - 1) e.cursor_y)
    else if ltb 0 e.cursor_y
    then (elim (line_len e (e.cursor_y - 1)) [
      | none ↦ none
      | some n ↦ some (at e.lines n (e.cursor_y - 1))
    ])
    else some e

unfoldable pub move_cursor_right : Editor → Option Editor
move_cursor_right e = elim (line_len e e.cursor_y) [
  | none ↦ none
  | some n ↦ some (
      if ltb e.cursor_x n
      then at e.lines (e.cursor_x + 1) e.cursor_y
      else if ltb e.cursor_y (length e.lines - 1)
      then at e.lines 0 (e.cursor_y + 1)
      else e)
]

-- The cursor goes to row `y`, no further right than its line.
abbrev pub move_to_row : ℕ → Editor → Option Editor
move_to_row y e = elim (line_len e y) [
  | none ↦ none
  | some n ↦ some (at e.lines (if ltb n e.cursor_x then n else e.cursor_x) y)
]

unfoldable pub move_cursor_up : Editor → Option Editor
move_cursor_up e = if ltb 0 e.cursor_y then move_to_row (e.cursor_y - 1) e else some e

unfoldable pub move_cursor_down : Editor → Option Editor
move_cursor_down e =
    if ltb e.cursor_y (length e.lines - 1) then move_to_row (e.cursor_y + 1) e else some e
