-- ===== src/Editor/Safe/Keys.antt =====
-- Deleting and moving, and a key as a whole, on one-byte text (src/editor/mod.rs).
use sil_os.Prelude.{
  ℕ, zero, suc, ◌+◌, ◌-◌, ◌≤◌, ◌<◌, ◌≡◌, refl, ap, inl, inr, arith, tests, some, [], ◌∷◌, ◌++◌, ltb,
  ◌==◌, if◌then◌else◌, Bool-cases, length, get_or, set, take, drop, length-append, length-take,
  ltb→lt,
}
use mathlib.Core.Path.{subst}
use sil_os.Editor.{
  Line, Editor, at, byte_len, remove_line, insert_char, backspace, backspace_char, backspace_line,
  line_len, move_to_row, move_cursor_left, move_cursor_right, move_cursor_up, move_cursor_down,
}
use sil_os.Editor.Edits.{AllAscii, ascii, byte_len_ascii, AllAscii-append}
use sil_os.Editor.Safe.{
  IsEditor, Stays, get_elem?-get_or, AllLines-get, AllLines-remove, length-remove_line,
  AllAscii-take, AllAscii-drop, split_at_ascii, current, there, current-AllAscii, set-IsEditor,
  insert_plain-Stays, insert_newline-Stays,
}

drop_cons : (i : ℕ) (s : Line) → i < length s → (c : ℕ) × (rest : Line) × (drop i s ≡ c ∷ rest)
drop_cons i [] h = absurd (omega arith)
drop_cons zero (c ∷ s) h = (c, s, refl)
drop_cons (suc i) (c ∷ s) h = drop_cons i s (omega arith)

AllAscii-tail : (c : ℕ) (s l : Line) → l ≡ c ∷ s → AllAscii l → AllAscii s
AllAscii-tail c s [] e a = cc
AllAscii-tail c s (d ∷ l) e (ascii h a) = subst AllAscii (cc) a

-- The row `y` of the same text, at a column of its line.
row-IsEditor :
    (e : Editor) (x y : ℕ)
    → IsEditor e
    → y < length e.lines
    → x ≤ length (get_or e.lines y [])
    → IsEditor (at e.lines x y)
row-IsEditor e x y i h k = record { all = i.all; row = h; column = k }

module _ (e : Editor) (i : IsEditor e) where
  pub insert_char-Stays : (c : ℕ) → c < 0x80 → Stays (insert_char c e)
  unfolding insert_char
  insert_char-Stays c small = elim (Bool-cases (c == b'\n')) [
    | inl newline ↦ rw newline (insert_newline-Stays e i)
    | inr plain ↦ rw plain (insert_plain-Stays e i c small)
  ]

  backspace_char-Stays : 0 < e.cursor_x → Stays (backspace_char e)
  unfolding backspace_char
  backspace_char-Stays h =
      let s = current e i in
      let n = e.cursor_x - 1 in
      let col = i.column in
      let (c, rest, cut) = drop_cons n s (omega arith) in
      let line' = take n s ++ rest in
      let a = current-AllAscii e i in
      (
        at (set e.lines e.cursor_y line') n e.cursor_y,
        rw (there e i, split_at_ascii n s a (omega arith), cut, backspace_char) refl,
        set-IsEditor e i line' n
            (AllAscii-append (take n s) rest (AllAscii-take n s a)
              (AllAscii-tail c rest (drop n s) cut (AllAscii-drop n s a)))
            (omega (arith, length-append (take n s) rest, length-take n s)),
      )

  backspace_line-Stays : 0 < e.cursor_y → Stays (backspace_line e)
  unfolding backspace_line
  backspace_line-Stays h =
      let y = e.cursor_y - 1 in
      let lines = remove_line e.cursor_y e.lines in
      let shorter = length-remove_line e.lines e.cursor_y i.row in
      let row = i.row in
      let inside : y < length lines = omega arith in
      let prev = get_or lines y [] in
      let above : IsEditor (at lines 0 y) = record {
        all = AllLines-remove e.lines e.cursor_y i.all;
        row = inside;
        column = omega arith;
      } in
      let a = AllLines-get lines y above.all in
      (
        at (set lines y (prev ++ current e i)) (byte_len prev) y,
        rw (there e i, get_elem?-get_or lines y inside, backspace_line) refl,
        set-IsEditor (at lines 0 y) above (prev ++ current e i) (byte_len prev)
            (AllAscii-append prev (current e i) a (current-AllAscii e i))
            (omega (arith, byte_len_ascii prev a, length-append prev (current e i))),
      )

  pub backspace-Stays : Stays (backspace e)
  unfolding backspace
  backspace-Stays = elim (Bool-cases (ltb 0 e.cursor_x)) [
    | inl inside ↦ rw inside (backspace_char-Stays (ltb→lt 0 e.cursor_x inside))
    | inr start ↦ elim (Bool-cases (ltb 0 e.cursor_y)) [
      | inl lower ↦ rw (start, lower) (backspace_line-Stays (ltb→lt 0 e.cursor_y lower))
      | inr top ↦ rw (start, top) (e, refl, i)
    ]
  ]

  -- The length of a line in bytes.
  line_len_ascii : (y : ℕ) → y < length e.lines → line_len e y ≡ some (length (get_or e.lines y []))
  line_len_ascii y h =
      rw (get_elem?-get_or e.lines y h, line_len)
        (ap some (byte_len_ascii (get_or e.lines y []) (AllLines-get e.lines y i.all)))

  move_to_row-Stays : (y : ℕ) → y < length e.lines → Stays (move_to_row y e)
  move_to_row-Stays y h =
      let n = length (get_or e.lines y []) in
      let x = if ltb n e.cursor_x then n else e.cursor_x in
      (
        at e.lines x y,
        rw (line_len_ascii y h, move_to_row) refl,
        row-IsEditor e x y i h (ground arith),
      )

  pub move_cursor_left-Stays : Stays (move_cursor_left e)
  unfolding move_cursor_left
  move_cursor_left-Stays = elim (Bool-cases (ltb 0 e.cursor_x)) [
    | inl inside ↦
        let col = i.column in
        rw inside
          (at e.lines (e.cursor_x - 1) e.cursor_y, refl, row-IsEditor e _ _ i i.row (omega arith))
    | inr start ↦ elim (Bool-cases (ltb 0 e.cursor_y)) [
      | inr top ↦ rw (start, top) (e, refl, i)
      | inl lower ↦
          let y = e.cursor_y - 1 in
          let row = i.row in
          let h : y < length e.lines = omega arith in
          let n = length (get_or e.lines y []) in
          rw (start, lower)
            (at e.lines n y, rw (line_len_ascii y h) refl, row-IsEditor e n y i h (omega arith))
    ]
  ]

  pub move_cursor_right-Stays : Stays (move_cursor_right e)
  unfolding move_cursor_right
  move_cursor_right-Stays =
      let n = length (current e i) in
      let col = i.column in
      let last = length e.lines - 1 in
      let moved =
        if ltb e.cursor_x n
        then at e.lines (e.cursor_x + 1) e.cursor_y
        else if ltb e.cursor_y last
        then at e.lines 0 (e.cursor_y + 1)
        else e in
      (
        moved,
        rw (line_len_ascii e.cursor_y i.row, move_cursor_right) refl,
        elim (Bool-cases (ltb e.cursor_x n)) [
          | inl inside ↦
              rw inside (row-IsEditor e (e.cursor_x + 1) e.cursor_y i i.row (omega tests))
          | inr end ↦ elim (Bool-cases (ltb e.cursor_y last)) [
            | inl more ↦
                rw (end, more) (row-IsEditor e 0 (e.cursor_y + 1) i (omega tests) (omega arith))
            | inr bottom ↦ rw (end, bottom) i
          ]
        ],
      )

  pub move_cursor_up-Stays : Stays (move_cursor_up e)
  unfolding move_cursor_up
  move_cursor_up-Stays = elim (Bool-cases (ltb 0 e.cursor_y)) [
    | inl lower ↦ let row = i.row in rw lower (move_to_row-Stays (e.cursor_y - 1) (omega arith))
    | inr top ↦ rw top (e, refl, i)
  ]

  pub move_cursor_down-Stays : Stays (move_cursor_down e)
  unfolding move_cursor_down
  move_cursor_down-Stays = elim (Bool-cases (ltb e.cursor_y (length e.lines - 1))) [
    | inl higher ↦ rw higher (move_to_row-Stays (e.cursor_y + 1) (omega tests))
    | inr bottom ↦ rw bottom (e, refl, i)
  ]
