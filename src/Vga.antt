-- ===== src/Vga.antt =====
-- The VGA text buffer and its writer (src/vga_buffer.rs) and the game canvas (src/canvas.rs).
-- `Buffer` gives the character of each cell. Loops over constant ranges stay inside the 25 rows of
-- 80 cells; a write at a computed place panics outside them, which is `none`.
pub mod Scroll
pub mod Canvas
pub mod Printing
use sil_os.Prelude.{
  ℕ, zero, suc, ◌+◌, ◌-◌, ◌*◌, ◌/◌, ◌%◌, Bool, ◌&&◌, ◌||◌, Option, none, some, ltb, leb, ◌==◌,
  if◌then◌else◌, List, [], ◌∷◌,
}

pub data Color : Type 0 where
  black : Color
  blue : Color
  green : Color
  cyan : Color
  red : Color
  magenta : Color
  brown : Color
  light_gray : Color
  dark_gray : Color
  light_blue : Color
  light_green : Color
  light_cyan : Color
  light_red : Color
  pink : Color
  yellow : Color
  white : Color

-- `color as u8`
abbrev pub color_u8 : Color → ℕ
color_u8 black = 0
color_u8 blue = 1
color_u8 green = 2
color_u8 cyan = 3
color_u8 red = 4
color_u8 magenta = 5
color_u8 brown = 6
color_u8 light_gray = 7
color_u8 dark_gray = 8
color_u8 light_blue = 9
color_u8 light_green = 10
color_u8 light_cyan = 11
color_u8 light_red = 12
color_u8 pink = 13
color_u8 yellow = 14
color_u8 white = 15

-- `(background as u8) << 4 | (foreground as u8)`: the two halves of the byte do not overlap.
abbrev pub color_code_new : Color → Color → ℕ
color_code_new foreground background = color_u8 background * 16 + color_u8 foreground

pub record ScreenChar : Type 0 where
  pub ascii_character : ℕ
  pub color_code : ℕ

abbrev pub Buffer : Type 0
Buffer = ℕ → ℕ → ScreenChar

abbrev pub buffer_height : ℕ
buffer_height = 25

abbrev pub buffer_width : ℕ
buffer_width = 80

pub record Writer : Type 0 where
  pub column_position : ℕ
  pub color_code : ℕ
  pub buffer : Buffer

-- `WRITER` at its first use, over what the screen's memory holds.
abbrev pub initial_writer : Buffer → Writer
initial_writer buffer = record {
  column_position = 0;
  color_code = color_code_new green black;
  buffer = buffer;
}

-- `chars[row][col].write(c)` where the indices are known to be in range.
unfoldable pub set_cell : ℕ → ℕ → ScreenChar → Buffer → Buffer
set_cell row col c chars r k = if r == row && k == col then c else chars r k

-- The same with the bounds checks of the two arrays.
unfoldable pub write_cell : ℕ → ℕ → ScreenChar → Buffer → Option Buffer
unfolding set_cell
write_cell row col c chars =
    if ltb row buffer_height && ltb col buffer_width then some (set_cell row col c chars) else none

abbrev pub blank : ℕ → ScreenChar
blank color = record { ascii_character = b' '; color_code = color }

-- `for col in col..col + n`: one cell of a row after the other becomes `c`.
unfoldable pub fill_row : ℕ → ℕ → ℕ → ScreenChar → Buffer → Buffer
fill_row zero col row c chars = chars
fill_row (suc n) col row c chars = fill_row n (col + 1) row c (set_cell row col c chars)

unfoldable pub fill_rows : ℕ → ℕ → ScreenChar → Buffer → Buffer
fill_rows zero row c chars = chars
fill_rows (suc n) row c chars = fill_rows n (row + 1) c (fill_row 80 0 row c chars)

-- `for col in 0..BUFFER_WIDTH`: a row is copied to the one above it.
unfoldable pub copy_row : ℕ → ℕ → ℕ → Buffer → Buffer
copy_row zero col row chars = chars
copy_row (suc n) col row chars =
    copy_row n (col + 1) row (set_cell (row - 1) col (chars row col) chars)

-- `for row in 1..BUFFER_HEIGHT`
unfoldable pub copy_rows : ℕ → ℕ → Buffer → Buffer
copy_rows zero row chars = chars
copy_rows (suc n) row chars = copy_rows n (row + 1) (copy_row buffer_width 0 row chars)

unfoldable pub clear_row : ℕ → Writer → Writer
unfolding fill_row
clear_row row w = record w { buffer = fill_row buffer_width 0 row (blank w.color_code) w.buffer }

unfoldable pub new_line : Writer → Writer
unfolding copy_rows clear_row
new_line w =
    let scrolled = record w { buffer = copy_rows 24 1 w.buffer } in
    record (clear_row 24 scrolled) { column_position = 0 }

abbrev pub with_buffer : Writer → ℕ → Buffer → Writer
with_buffer w col chars = record w { column_position = col; buffer = chars }

-- The branch of `write_byte` that puts a character at the column.
unfoldable pub put_byte : ℕ → Writer → Option Writer
unfolding write_cell
put_byte byte w =
    elim (write_cell 24 w.column_position
      (record { ascii_character = byte; color_code = w.color_code }) w.buffer) [
        | none ↦ none
        | some chars ↦ some (with_buffer w (w.column_position + 1) chars)
      ]

unfoldable pub write_byte : ℕ → Writer → Option Writer
unfolding new_line put_byte
write_byte byte w =
    if byte == b'\n'
    then some (new_line w)
    else put_byte byte (if leb buffer_width w.column_position then new_line w else w)

-- `0x20..=0x7e | b'\n' => byte, _ => 0xfe`
abbrev pub shown : ℕ → ℕ
shown byte = if leb 0x20 byte && leb byte 0x7e || byte == b'\n' then byte else 0xfe

unfoldable pub write_string : List ℕ → Writer → Option Writer
unfolding write_byte
write_string [] w = some w
write_string (byte ∷ s) w = elim (write_byte (shown byte) w) [
  | none ↦ none
  | some w' ↦ write_string s w'
]

unfoldable pub delete_byte : Writer → Option Writer
unfolding write_cell
delete_byte w =
    if ltb 0 w.column_position
    then (elim (write_cell 24 (w.column_position - 1) (blank w.color_code) w.buffer) [
      | none ↦ none
      | some chars ↦ some (with_buffer w (w.column_position - 1) chars)
    ])
    else some w

-- `for i in 0..24`
unfoldable pub clear : Writer → Writer
unfolding fill_rows
clear w = record w { buffer = fill_rows 24 0 (blank w.color_code) w.buffer }

abbrev pub set_color : ℕ → Writer → Writer
set_color color w = record w { color_code = color }

unfoldable pub write_char_at : ℕ → ℕ → ℕ → ℕ → Writer → Writer
unfolding set_cell
write_char_at x y c color w =
    if ltb x buffer_width && ltb y buffer_height
    then (record w {
      buffer = set_cell y x (record { ascii_character = c; color_code = color }) w.buffer;
    })
    else w

-- The writes to the cursor's ports 0x3D4 and 0x3D5, in order.
abbrev pub update_cursor : ℕ → ℕ → List (ℕ × ℕ)
update_cursor x y =
    let pos = y * buffer_width + x in
    (0x3D4, 0x0F) ∷ (0x3D5, pos % 256) ∷ (0x3D4, 0x0E) ∷ (0x3D5, pos / 256 % 256) ∷ []
