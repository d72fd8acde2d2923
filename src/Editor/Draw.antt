-- ===== src/Editor/Draw.antt =====
-- Drawing the editor on the VGA buffer (src/editor/mod.rs: `Editor::draw`, `VgaTerminal`).
use sil_os.Prelude.{ℕ, ◌+◌, ◌%◌, List, [], ◌∷◌}
use sil_os.Vga.{Writer, clear, write_char_at, update_cursor}
use sil_os.Editor.{Line, Editor}

-- `VgaTerminal::put_char`, where `c as u8` keeps the low byte of the code point.
abbrev pub put_char : ℕ → ℕ → ℕ → Writer → Writer
put_char x y c w = write_char_at x y (c % 256) 0x0F w

unfoldable pub draw_line : ℕ → ℕ → Line → Writer → Writer
draw_line x y [] w = w
draw_line x y (c ∷ line) w = draw_line (x + 1) y line (put_char x y c w)

unfoldable pub draw_lines : ℕ → List Line → Writer → Writer
unfolding draw_line
draw_lines y [] w = w
draw_lines y (line ∷ lines) w = draw_lines (y + 1) lines (draw_line 0 y line w)

-- The screen, and the writes to the cursor's ports.
unfoldable pub draw : Editor → Writer → Writer × List (ℕ × ℕ)
unfolding draw_lines
draw e w = (draw_lines 0 e.lines (clear w), update_cursor e.cursor_x e.cursor_y)
