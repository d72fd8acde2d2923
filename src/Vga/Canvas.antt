-- ===== src/Vga/Canvas.antt =====
-- The canvas of the game (src/canvas.rs): the same cells, drawn directly.
use sil_os.Prelude.{ℕ, ◌&&◌, ltb, if◌then◌else◌}
use sil_os.Vga.{Buffer, black, blank, color_code_new, set_cell, fill_rows}

unfoldable pub set_char : ℕ → ℕ → ℕ → ℕ → Buffer → Buffer
unfolding set_cell
set_char x y character color chars =
    if ltb x 80 && ltb y 25
    then set_cell y x (record { ascii_character = character; color_code = color }) chars
    else chars

unfoldable pub clear_canvas : Buffer → Buffer
unfolding fill_rows
clear_canvas chars = fill_rows 25 0 (blank (color_code_new black black)) chars
