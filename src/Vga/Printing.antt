-- ===== src/Vga/Printing.antt =====
-- The theorems about the writer (src/vga_buffer.rs) and the canvas (src/canvas.rs).
use sil_os.Prelude.{
  ℕ, zero, suc, ◌+◌, ◌-◌, ◌<◌, ◌≤◌, ◌≡◌, ◌≢◌, inl, inr, refl, ap, ◌∙◌, arith, ◌==◌, Bool-cases,
  Option-cases, false, some, List, [], ◌∷◌, ◌++◌, length, get_or, leb, tests,
}
use sil_os.Vga.{
  ScreenChar, Writer, set_cell, write_cell, new_line, put_byte, write_byte, write_string, shown,
  delete_byte, clear_row, blank, clear, with_buffer,
}
use sil_os.Vga.Scroll.{set_cell_self, set_cell_ne, fill_rows_self, fill_rows_ne, new_line-scrolls}

-- The writer's column never passes the end of a row.
abbrev pub IsWriter : Writer → Type 0
IsWriter w = w.column_position ≤ 80

abbrev pub char_of : ℕ → Writer → ScreenChar
char_of byte w = record { ascii_character = byte; color_code = w.color_code }

-- The writer with one character more.
abbrev pub put : ℕ → Writer → Writer
put byte w =
    with_buffer w (w.column_position + 1) (set_cell 24 w.column_position (char_of byte w) w.buffer)

put_byte_lem :
    (byte : ℕ) (w : Writer) → w.column_position < 80 → put_byte byte w ≡ some (put byte w)
unfolding put_byte write_cell
put_byte_lem byte w h = ground arith

new_line_column : (w : Writer) → (new_line w).column_position ≡ 0
unfolding new_line
new_line_column w = refl

new_line_color : (w : Writer) → (new_line w).color_code ≡ w.color_code
unfolding new_line clear_row
new_line_color w = refl

write_byte-total :
    (byte : ℕ) (w : Writer)
    → IsWriter w
    → (w' : Writer) × (write_byte byte w ≡ some w') × IsWriter w'
unfolding write_byte
write_byte-total byte w h = elim (Bool-cases (byte == b'\n')) [
  | inl e ↦ (new_line w, rw (e, write_byte) refl, omega (arith, new_line_column w))
  | inr e ↦ elim (Bool-cases (leb 80 w.column_position)) [
    | inl full ↦ (
      put byte (new_line w),
      rw (e, full, write_byte) (put_byte_lem byte (new_line w) (omega (arith, new_line_column w))),
      omega (arith, new_line_column w),
    )
    | inr room ↦
        (put byte w, rw (e, room, write_byte) (put_byte_lem byte w (omega tests)), omega tests)
  ]
]

-- From a column of at most 80, whatever is printed, no write of the writer is out of bounds, and
-- its column stays at most 80.
pub write_string-IsWriter :
    (s : List ℕ) (w : Writer)
    → IsWriter w
    → (w' : Writer) × (write_string s w ≡ some w') × IsWriter w'
unfolding write_string
write_string-IsWriter [] w h = (w, refl, h)
write_string-IsWriter (byte ∷ s) w h =
    let (w1, e1, h1) = write_byte-total (shown byte) w h in
    let (w2, e2, h2) = write_string-IsWriter s w1 h1 in (w2, rw (e1, write_string) e2, h2)

-- Printable ASCII.
abbrev pub IsPrintable : ℕ → Type 0
IsPrintable byte = (0x20 ≤ byte) × (byte ≤ 0x7E)

pub data AllPrintable : List ℕ → Type 0 where
  none_left : AllPrintable []
  printable : {byte : ℕ} {s : List ℕ} → IsPrintable byte → AllPrintable s → AllPrintable (byte ∷ s)

-- `w'` is `w` with `s` written behind its column.
pub record Line (s : List ℕ) (w w' : Writer) : Type 0 where
  pub column : w'.column_position ≡ w.column_position + length s
  pub color : w'.color_code ≡ w.color_code
  pub text :
      (i : ℕ) → i < length s → w'.buffer 24 (w.column_position + i) ≡ char_of (get_or s i 0) w
  pub above : (r k : ℕ) → r < 24 → w'.buffer r k ≡ w.buffer r k
  pub before : (k : ℕ) → k < w.column_position → w'.buffer 24 k ≡ w.buffer 24 k

shown_printable : (byte : ℕ) → IsPrintable byte → shown byte ≡ byte
shown_printable byte (l, h) = ground arith

printable_step :
    (byte : ℕ) (w : Writer)
    → IsPrintable byte
    → w.column_position < 80
    → write_byte (shown byte) w ≡ some (put byte w)
unfolding write_byte
printable_step byte w (l, h) room = rw (shown_printable byte (l, h)) (
    let other : (byte == b'\n') ≡ false = ground arith in
    let fits : leb 80 w.column_position ≡ false = ground arith in
    rw (other, fits, write_byte) (put_byte_lem byte w room))

text_step :
    (byte : ℕ) (s : List ℕ) (w w2 : Writer)
    → Line s (put byte w) w2
    → (i : ℕ) → i < length (byte ∷ s)
    → w2.buffer 24 (w.column_position + i) ≡ char_of (get_or (byte ∷ s) i 0) w
text_step byte s w w2 l zero h =
    let at : w.column_position + 0 ≡ w.column_position = omega arith in
    rw at (
      l.before w.column_position (omega arith)
      ∙ set_cell_self 24 w.column_position (char_of byte w) w.buffer)
text_step byte s w w2 l (suc i) h =
    let at : w.column_position + suc i ≡ w.column_position + 1 + i = omega arith in
    rw at (l.text i (omega arith))

-- Text that fits behind the column is written on the bottom row, and nothing else changes.
pub write_string-Line :
    (s : List ℕ) (w : Writer)
    → AllPrintable s
    → w.column_position + length s ≤ 80
    → (w' : Writer) × (write_string s w ≡ some w') × Line s w w'
unfolding write_string
write_string-Line [] w p h = (
  w,
  refl,
  record {
    column = omega arith;
    color = refl;
    text = λ i l. absurd (omega arith);
    above = λ r k l. refl;
    before = λ k l. refl;
  },
)
write_string-Line (byte ∷ s) w (printable p ps) h =
    let (w2, e, l) = write_string-Line s (put byte w) ps (omega arith) in
    (
      w2,
      rw (printable_step byte w p (omega arith), write_string) e,
      record {
        column = omega (arith, l.column);
        color = l.color;
        text = text_step byte s w w2 l;
        above = λ r k below.
            l.above r k below
            ∙ set_cell_ne 24 w.column_position r k (char_of byte w) w.buffer (inl (omega arith));
        before = λ k left.
            l.before k (omega arith)
            ∙ set_cell_ne 24 w.column_position 24 k (char_of byte w) w.buffer (inr (omega arith));
      },
    )

write_string-append :
    (s t : List ℕ) (w w' : Writer)
    → write_string s w ≡ some w'
    → write_string (s ++ t) w ≡ write_string t w'
unfolding write_string
write_string-append [] t w w' e = ground arith
write_string-append (byte ∷ s) t w w' e = elim (Option-cases (write_byte (shown byte) w)) [
  | inl n ↦ let bad = rw (n, write_string) at e in cc
  | inr (w1, n) ↦ rw (n, write_string) (write_string-append s t w1 w' (rw (n, write_string) at e))
]

newline_only : (w : Writer) → write_string (b'\n' ∷ []) w ≡ some (new_line w)
unfolding write_string write_byte
newline_only w = refl

-- A line feed, at most 80 printable characters and another line feed, as `println!("\\n{}", s)`
-- prints them, put the characters on the last row but one, in the colour of the writer, whatever
-- was on the screen and whichever column the writer was at.
pub println-row :
    (s : List ℕ) (w : Writer)
    → AllPrintable s
    → length s ≤ 80
    → (i : ℕ) → i < length s
    → (w' : Writer) × (write_string (b'\n' ∷ s ++ b'\n' ∷ []) w ≡ some w')
      × (w'.buffer 23 i ≡ char_of (get_or s i 0) w)
println-row s w p h i small =
    let fresh = new_line w in
    let start = new_line_column w in
    let (w2, e, l) = write_string-Line s fresh p (omega (arith, start)) in
    (
      new_line w2,
      write_string-append (b'\n' ∷ []) (s ++ b'\n' ∷ []) w fresh (newline_only w)
          ∙ write_string-append s (b'\n' ∷ []) fresh w2 e
          ∙ newline_only w2,
      let at : i ≡ fresh.column_position + i = omega (arith, start) in
          new_line-scrolls w2 23 i (omega arith) (omega arith)
          ∙ ap (w2.buffer 24) at
          ∙ l.text i small
          ∙ ap (λ c. record { ascii_character = get_or s i 0; color_code = c }) (new_line_color w),
    )

-- For a character other than a line feed that is written before the row is full, a backspace takes
-- it back: the column is as before and the cell is blank.
pub delete_byte-put :
    (byte : ℕ) (w : Writer)
    → byte ≢ b'\n'
    → w.column_position < 80
    → (w1 : Writer) × (w2 : Writer) × (write_byte byte w ≡ some w1)
      × (delete_byte w1 ≡ some w2)
      × (w2.column_position ≡ w.column_position)
      × (w2.buffer 24 w.column_position ≡ blank w.color_code)
unfolding write_byte delete_byte write_cell
delete_byte-put byte w other room =
    let col = w.column_position in
    let e : (byte == b'\n') ≡ false = ground arith in
    let fits : leb 80 w.column_position ≡ false = ground arith in
    let back : w.column_position + 1 - 1 ≡ w.column_position = omega arith in
    let w1 = put byte w in
    (
      w1,
      with_buffer w1 col (set_cell 24 col (blank w.color_code) w1.buffer),
      rw (e, fits, write_byte) (put_byte_lem byte w room),
      ground (arith, back),
      refl,
      set_cell_self 24 col (blank w.color_code) w1.buffer,
    )

-- `clear` blanks the first 24 rows only: the bottom row, on which the writer prints, and the
-- column stay as they are.
pub clear-rows :
    (w : Writer) (r k : ℕ)
    → r < 24
    → k < 80
    → ((clear w).buffer r k ≡ blank w.color_code)
      × ((clear w).buffer 24 k ≡ w.buffer 24 k)
      × ((clear w).column_position ≡ w.column_position)
unfolding clear
clear-rows w r k top h = (
  fill_rows_self 24 0 r k (blank w.color_code) w.buffer (omega arith) (omega arith) h,
  fill_rows_ne 24 0 24 k (blank w.color_code) w.buffer (inr (omega arith)),
  refl,
)
