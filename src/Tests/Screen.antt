-- ===== src/Tests/Screen.antt =====
-- The writer and the editor at concrete inputs (src/vga_buffer.rs, src/editor/mod.rs).
use sil_os.Prelude.{ℕ, ◌≡◌, refl, arith, [], ◌∷◌, ◌++◌, some, none}
use sil_os.Vga.{Writer, blank, write_string, clear}
use sil_os.Vga.Printing.{
  IsWriter, none_left, printable, char_of, write_string-IsWriter, println-row, clear-rows,
}
use sil_os.Editor.{Editor, at, split_at, insert_char}
use sil_os.Editor.Edits.{ascii, ascii_nil, Cursor, insert_char-Cursor}

abbrev green : ℕ
green = 2

-- A writer whose row is full.
abbrev full_row : Writer
full_row = record { column_position = 80; color_code = green; buffer = λ r k. blank green }

abbrev empty_row : Writer
empty_row = record { column_position = 0; color_code = green; buffer = λ r k. blank green }

write_string-IsWriter_example :
    (w' : Writer) × (write_string (b'a' ∷ []) full_row ≡ some w') × IsWriter w'
write_string-IsWriter_example = write_string-IsWriter (b'a' ∷ []) full_row (omega arith)

println-row_example :
    (w' : Writer) × (write_string (b'\n' ∷ (b'a' ∷ b'b' ∷ []) ++ b'\n' ∷ []) full_row ≡ some w')
    × (w'.buffer 23 1 ≡ char_of b'b' full_row)
println-row_example =
    println-row (b'a' ∷ b'b' ∷ []) full_row
      (printable (omega arith, omega arith) (printable (omega arith, omega arith) none_left))
      (omega arith) 1 (omega arith)

clear-rows_example :
    ((clear full_row).buffer 5 6 ≡ blank green)
    × ((clear full_row).buffer 24 6 ≡ full_row.buffer 24 6)
    × ((clear full_row).column_position ≡ 80)
clear-rows_example = clear-rows full_row 5 6 (omega arith) (omega arith)

-- The cursor between `a` and `b` on the second of two lines.
abbrev two_lines : Editor
two_lines = at ((b'x' ∷ []) ∷ (b'a' ∷ b'b' ∷ []) ∷ []) 1 1

two_lines-Cursor : Cursor two_lines ((b'x' ∷ []) ∷ []) (b'a' ∷ []) (b'b' ∷ []) []
two_lines-Cursor = record {
  lines = refl;
  row = refl;
  column = refl;
  bytes = ascii (omega arith) ascii_nil;
}

insert_char-Cursor_example :
    (e' : Editor) × (insert_char b'c' two_lines ≡ some e')
    × Cursor e' ((b'x' ∷ []) ∷ []) (b'a' ∷ b'c' ∷ []) (b'b' ∷ []) []
insert_char-Cursor_example =
    insert_char-Cursor two_lines ((b'x' ∷ []) ∷ []) (b'a' ∷ []) (b'b' ∷ []) [] two_lines-Cursor b'c'
      (omega arith) (omega arith)

-- After a character of two bytes the cursor is inside it, and the next insertion panics.
abbrev after_accent : Editor
after_accent = at ((0xE9 ∷ []) ∷ []) 1 0

accent_typed : insert_char 0xE9 (at ([] ∷ []) 0 0) ≡ some after_accent
unfolding insert_char split_at
accent_typed = refl

accent_panics : insert_char b'a' after_accent ≡ none
unfolding insert_char split_at
accent_panics = refl
