-- ===== src/Editor/Moves.antt =====
-- Deleting before the cursor and moving it (src/editor/mod.rs), on text of one-byte characters.
use sil_os.Prelude.{
  ℕ, suc, ◌-◌, ◌<◌, ◌≡◌, ◌≢◌, refl, ap, ◌∙◌, arith, true, false, some, List, [], ◌∷◌, ◌++◌, ltb,
  length, get_elem?, set, length-append, append_assoc, lt→ltb,
}
use sil_os.Editor.{
  Line, Editor, at, byte_len, split_at, remove_line, insert_char, backspace, backspace_char,
  backspace_line, move_cursor_left,
}
use sil_os.Editor.Edits.{
  AllAscii, ascii, ascii_nil, Cursor, here, replaced, split_at-append, get_elem?-middle, set-middle,
  remove_line-middle, byte_len_ascii, insert_char-Cursor,
}

AllAscii-front : (s t : Line) → AllAscii (s ++ t) → AllAscii s
AllAscii-front [] t a = ascii_nil
AllAscii-front (c ∷ s) t (ascii h a) = ascii h (AllAscii-front s t a)

module _ (e : Editor) (above : List Line) (before : Line) (ch : ℕ) (after : Line)
    (below : List Line) (c : Cursor e above (before ++ ch ∷ []) after below) where
  column_suc : e.cursor_x ≡ suc (length before)
  column_suc = omega (arith, c.column, length-append before (ch ∷ []))

  inside : ltb 0 e.cursor_x ≡ true
  inside = lt→ltb 0 e.cursor_x (omega (arith, column_suc))

  cut_before : split_at (e.cursor_x - 1) ((before ++ ch ∷ []) ++ after) ≡ some (before, ch ∷ after)
  cut_before =
      let one : e.cursor_x - 1 ≡ length before = omega (arith, column_suc) in
      ap (λ i. split_at i ((before ++ ch ∷ []) ++ after)) one
      ∙ ap (split_at (length before)) (append_assoc before (ch ∷ []) after)
      ∙ split_at-append before (ch ∷ after) (AllAscii-front before (ch ∷ []) c.bytes)

  -- With one-byte characters before the cursor on its line, of which there is one at least,
  -- `backspace` deletes the last of them.
  pub backspace-Cursor :
      (e' : Editor) × (backspace e ≡ some e') × Cursor e' above before after below
  unfolding backspace backspace_char
  backspace-Cursor = (
    at (set e.lines e.cursor_y (before ++ after)) (e.cursor_x - 1) e.cursor_y,
    rw
        (
          inside,
          here e above (before ++ ch ∷ []) after below c,
          cut_before,
          backspace_char,
          backspace,
        )
        refl,
    record {
      lines = replaced e above (before ++ ch ∷ []) after below c (before ++ after);
      row = c.row;
      column = omega (arith, column_suc);
      bytes = AllAscii-front before (ch ∷ []) c.bytes;
    },
  )

  -- With one-byte characters before the cursor on its line, of which there is one at least,
  -- `move_cursor_left` steps over the last of them.
  move_cursor_left-Cursor :
      (e' : Editor) × (move_cursor_left e ≡ some e') × Cursor e' above before (ch ∷ after) below
  unfolding move_cursor_left
  move_cursor_left-Cursor = (
    at e.lines (e.cursor_x - 1) e.cursor_y,
    rw (inside, move_cursor_left) refl,
    record {
      lines = c.lines ∙ ap (λ k. above ++ k ∷ below) (append_assoc before (ch ∷ []) after);
      row = c.row;
      column = omega (arith, column_suc);
      bytes = AllAscii-front before (ch ∷ []) c.bytes;
    },
  )

-- With one-byte characters before the cursor on its line, typing a one-byte character other than a
-- line feed and deleting it again gives the text and the cursor as they were.
pub backspace-insert_char :
    (e : Editor) (above : List Line) (before after : Line) (below : List Line)
    → Cursor e above before after below
    → (ch : ℕ) → ch < 0x80
    → ch ≢ b'\n'
    → (e1 e2 : Editor) × (insert_char ch e ≡ some e1)
      × (backspace e1 ≡ some e2)
      × Cursor e2 above before after below
backspace-insert_char e above before after below c ch small other =
    let (e1, typed, c1) = insert_char-Cursor e above before after below c ch small other in
    let (e2, deleted, c2) = backspace-Cursor e1 above before ch after below c1 in
    (e1, e2, typed, deleted, c2)

module _ (e : Editor) (above : List Line) (prev after : Line) (below : List Line)
    (c : Cursor e (above ++ prev ∷ []) [] after below) (bytes : AllAscii prev) where
  row_suc : e.cursor_y ≡ suc (length above)
  row_suc = omega (arith, c.row, length-append above (prev ∷ []))

  joined : remove_line e.cursor_y e.lines ≡ above ++ prev ∷ below
  joined =
      ap (remove_line e.cursor_y) c.lines
      ∙ ap (λ y. remove_line y ((above ++ prev ∷ []) ++ after ∷ below)) c.row
      ∙ remove_line-middle (above ++ prev ∷ []) after below
      ∙ append_assoc above (prev ∷ []) below

  -- At the start of a line under one of one-byte characters, `backspace` joins the line to the one
  -- before, and the cursor stands where the two meet.
  pub backspace-joins : (e' : Editor) × (backspace e ≡ some e') × Cursor e' above prev after below
  unfolding backspace backspace_line
  backspace-joins =
      let start : ltb 0 e.cursor_x ≡ false = rw (c.column) refl in
      let lower : ltb 0 e.cursor_y ≡ true = lt→ltb 0 e.cursor_y (omega (arith, row_suc)) in
      let up : e.cursor_y - 1 ≡ length above = omega (arith, row_suc) in
      let left = remove_line e.cursor_y e.lines in
      let previous : get_elem? left (e.cursor_y - 1) ≡ some prev =
        ap (λ ls. get_elem? ls (e.cursor_y - 1)) joined
        ∙ ap (get_elem? (above ++ prev ∷ below)) up
        ∙ get_elem?-middle above prev below in
      let lines : set left (e.cursor_y - 1) (prev ++ after) ≡ above ++ (prev ++ after) ∷ below =
        ap (λ ls. set ls (e.cursor_y - 1) (prev ++ after)) joined
        ∙ ap (λ y. set (above ++ prev ∷ below) y (prev ++ after)) up
        ∙ set-middle above prev (prev ++ after) below in
      (
        at (set left (e.cursor_y - 1) (prev ++ after)) (byte_len prev) (e.cursor_y - 1),
        rw
            (
              start,
              lower,
              here e (above ++ prev ∷ []) [] after below c,
              previous,
              backspace_line,
              backspace,
            )
            refl,
        record { lines = lines; row = up; column = byte_len_ascii prev bytes; bytes = bytes },
      )
