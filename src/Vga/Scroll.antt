-- ===== src/Vga/Scroll.antt =====
-- What the loops of the writer do to the cells (src/vga_buffer.rs).
use sil_os.Prelude.{
  ℕ, zero, suc, ◌+◌, ◌-◌, ◌<◌, ◌≤◌, ◌≡◌, ◌≢◌, ◌⊎◌, inl, inr, refl, ap, ◌∙◌, arith, ◌==◌, Bool-cases,
}
use sil_os.Vga.{
  ScreenChar, Buffer, Writer, set_cell, fill_row, fill_rows, copy_row, copy_rows, clear_row,
  new_line, blank,
}

pub set_cell_self :
    (row col : ℕ) (c : ScreenChar) (chars : Buffer) → set_cell row col c chars row col ≡ c
unfolding set_cell
set_cell_self row col c chars = ground arith

pub set_cell_ne :
    (row col r k : ℕ) (c : ScreenChar) (chars : Buffer)
    → (r ≢ row) ⊎ (k ≢ col)
    → set_cell row col c chars r k ≡ chars r k
unfolding set_cell
set_cell_ne row col r k c chars h = ground arith

fill_row_ne :
    (n col row r k : ℕ) (c : ScreenChar) (chars : Buffer)
    → (r ≢ row) ⊎ (k < col) ⊎ (col + n ≤ k)
    → fill_row n col row c chars r k ≡ chars r k
unfolding fill_row
fill_row_ne zero col row r k c chars h = refl
fill_row_ne (suc n) col row r k c chars h =
    fill_row_ne n (col + 1) row r k c (set_cell row col c chars) (ground arith)
    ∙ set_cell_ne row col r k c chars (ground arith)

fill_row_self :
    (n col row k : ℕ) (c : ScreenChar) (chars : Buffer)
    → col ≤ k
    → k < col + n
    → fill_row n col row c chars row k ≡ c
unfolding fill_row
fill_row_self zero col row k c chars h l = absurd (omega arith)
fill_row_self (suc n) col row k c chars h l = elim (Bool-cases (k == col)) [
  | inl e ↦
      let at : k ≡ col = ground arith in
      fill_row_ne n (col + 1) row row k c (set_cell row col c chars) (ground arith)
      ∙ rw at (set_cell_self row col c chars)
  | inr e ↦
      fill_row_self n (col + 1) row k c (set_cell row col c chars) (ground arith) (omega arith)
]

pub fill_rows_ne :
    (n row r k : ℕ) (c : ScreenChar) (chars : Buffer)
    → (r < row) ⊎ (row + n ≤ r)
    → fill_rows n row c chars r k ≡ chars r k
unfolding fill_rows
fill_rows_ne zero row r k c chars h = refl
fill_rows_ne (suc n) row r k c chars h =
    fill_rows_ne n (row + 1) r k c (fill_row 80 0 row c chars) (ground arith)
    ∙ fill_row_ne 80 0 row r k c chars (ground arith)

pub fill_rows_self :
    (n row r k : ℕ) (c : ScreenChar) (chars : Buffer)
    → row ≤ r
    → r < row + n
    → k < 80
    → fill_rows n row c chars r k ≡ c
unfolding fill_rows
fill_rows_self zero row r k c chars h l w = absurd (omega arith)
fill_rows_self (suc n) row r k c chars h l w = elim (Bool-cases (r == row)) [
  | inl e ↦
      let at : r ≡ row = ground arith in
      fill_rows_ne n (row + 1) r k c (fill_row 80 0 row c chars) (ground arith)
      ∙ rw at (fill_row_self 80 0 row k c chars (omega arith) (omega arith))
  | inr e ↦
      fill_rows_self n (row + 1) r k c (fill_row 80 0 row c chars) (ground arith) (omega arith) w
]

copy_row_ne :
    (n col row r k : ℕ) (chars : Buffer)
    → (suc r ≢ row) ⊎ (k < col) ⊎ (col + n ≤ k)
    → 1 ≤ row
    → copy_row n col row chars r k ≡ chars r k
unfolding copy_row
copy_row_ne zero col row r k chars h l = refl
copy_row_ne (suc n) col row r k chars h l =
    copy_row_ne n (col + 1) row r k (set_cell (row - 1) col (chars row col) chars) (ground arith) l
    ∙ set_cell_ne (row - 1) col r k (chars row col) chars (ground arith)

copy_row_self :
    (n col row k : ℕ) (chars : Buffer)
    → 1 ≤ row
    → col ≤ k
    → k < col + n
    → copy_row n col row chars (row - 1) k ≡ chars row k
unfolding copy_row
copy_row_self zero col row k chars o h l = absurd (omega arith)
copy_row_self (suc n) col row k chars o h l =
    let next = set_cell (row - 1) col (chars row col) chars in
    elim (Bool-cases (k == col)) [
      | inl e ↦
          let at : k ≡ col = ground arith in
          copy_row_ne n (col + 1) row (row - 1) k next (ground arith) o
          ∙ rw at (set_cell_self (row - 1) col (chars row col) chars)
      | inr e ↦
          copy_row_self n (col + 1) row k next o (ground arith) (omega arith)
          ∙ set_cell_ne (row - 1) col row k (chars row col) chars (inl (omega arith))
    ]

copy_rows_ne :
    (n row r k : ℕ) (chars : Buffer)
    → (suc r < row) ⊎ (row + n ≤ suc r)
    → 1 ≤ row
    → copy_rows n row chars r k ≡ chars r k
unfolding copy_rows
copy_rows_ne zero row r k chars h l = refl
copy_rows_ne (suc n) row r k chars h l =
    copy_rows_ne n (row + 1) r k (copy_row 80 0 row chars) (ground arith) (omega arith)
    ∙ copy_row_ne 80 0 row r k chars (ground arith) l

copy_rows_self :
    (n row r k : ℕ) (chars : Buffer)
    → 1 ≤ row
    → row ≤ suc r
    → suc r < row + n
    → k < 80
    → copy_rows n row chars r k ≡ chars (suc r) k
unfolding copy_rows
copy_rows_self zero row r k chars o h l w = absurd (omega arith)
copy_rows_self (suc n) row r k chars o h l w = elim (Bool-cases (row == suc r)) [
  | inl e ↦
      let at : row ≡ suc r = ground arith in
      let before : r ≡ row - 1 = omega arith in
      copy_rows_ne n (row + 1) r k (copy_row 80 0 row chars) (ground arith) (omega arith)
      ∙ ap (λ j. copy_row 80 0 row chars j k) before
      ∙ copy_row_self 80 0 row k chars o (omega arith) (omega arith)
      ∙ ap (λ j. chars j k) at
  | inr e ↦
      copy_rows_self n (row + 1) r k (copy_row 80 0 row chars) (omega arith) (ground arith)
        (omega arith) w
      ∙ copy_row_ne 80 0 row (suc r) k chars (ground arith) o
]

-- A new line moves every row but the first up by one.
pub new_line-scrolls :
    (w : Writer) (r k : ℕ) → r < 24 → k < 80 → (new_line w).buffer r k ≡ w.buffer (suc r) k
unfolding new_line clear_row
new_line-scrolls w r k h l =
    fill_row_ne 80 0 24 r k (blank w.color_code) (copy_rows 24 1 w.buffer) (inl (omega arith))
    ∙ copy_rows_self 24 1 r k w.buffer (omega arith) (omega arith) (omega arith) l

pub new_line-bottom : (w : Writer) (k : ℕ) → k < 80 → (new_line w).buffer 24 k ≡ blank w.color_code
unfolding new_line clear_row
new_line-bottom w k l =
    fill_row_self 80 0 24 k (blank w.color_code) (copy_rows 24 1 w.buffer) (omega arith)
      (omega arith)
