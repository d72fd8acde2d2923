-- ===== src/Editor/Safe.antt =====
-- One-byte text with the cursor in it, and typing (src/editor/mod.rs).
pub mod Keys
pub mod Loaded
use sil_os.Prelude.{
  ℕ, zero, suc, ◌+◌, ◌-◌, ◌≤◌, ◌<◌, ◌≡◌, ◌≢◌, refl, ap, sym, ◌∙◌, inl, inr, arith, tests, true,
  false, Option, none, some, List, [], ◌∷◌, ◌++◌, ltb, ◌==◌, if◌then◌else◌, Bool-cases, length,
  get_elem?, get_or, set, take, drop, length-set, length-append, length-take, length-drop,
  get_or-set_self, ltb→lt, ltb→le, lt→ltb,
}
use sil_os.Editor.{
  Line, Editor, at, len_utf8, byte_len, split_at, insert_line, remove_line, insert_newline,
  insert_plain, insert_char, backspace, backspace_char, backspace_line, line_len, move_to_row,
  move_cursor_left, move_cursor_right, move_cursor_up, move_cursor_down,
}
use sil_os.Editor.Edits.{
  AllAscii, ascii_nil, ascii, len_utf8_ascii, byte_len_ascii, AllAscii-append,
}

abbrev pub AllLines : List Line → Type 0
AllLines [] = Unit
AllLines (l ∷ lines) = AllAscii l × AllLines lines

-- One-byte text, with the cursor in it.
pub record IsEditor (e : Editor) : Type 0 where
  pub all : AllLines e.lines
  pub row : e.cursor_y < length e.lines
  pub column : e.cursor_x ≤ length (get_or e.lines e.cursor_y [])

-- The operation does not panic, and the cursor stays in the text.
abbrev pub Stays : Option Editor → Type 0
Stays m = (e' : Editor) × (m ≡ some e') × IsEditor e'

pub get_elem?-get_or :
    (lines : List Line) (y : ℕ) → y < length lines → get_elem? lines y ≡ some (get_or lines y [])
get_elem?-get_or [] y h = absurd (omega arith)
get_elem?-get_or (l ∷ lines) zero h = refl
get_elem?-get_or (l ∷ lines) (suc y) h = get_elem?-get_or lines y (omega arith)

pub AllLines-get : (lines : List Line) (y : ℕ) → AllLines lines → AllAscii (get_or lines y [])
AllLines-get [] y a = ascii_nil
AllLines-get (l ∷ lines) zero a = a.0
AllLines-get (l ∷ lines) (suc y) a = AllLines-get lines y a.1

AllLines-set :
    (lines : List Line) (y : ℕ) (k : Line) → AllLines lines → AllAscii k → AllLines (set lines y k)
AllLines-set [] y k a b = a
AllLines-set (l ∷ lines) zero k a b = (b, a.1)
AllLines-set (l ∷ lines) (suc y) k a b = (a.0, AllLines-set lines y k a.1 b)

AllLines-insert :
    (lines : List Line) (y : ℕ) (k : Line)
    → AllLines lines
    → AllAscii k
    → AllLines (insert_line y k lines)
AllLines-insert lines zero k a b = (b, a)
AllLines-insert [] (suc y) k a b = a
AllLines-insert (l ∷ lines) (suc y) k a b = (a.0, AllLines-insert lines y k a.1 b)

pub AllLines-remove : (lines : List Line) (y : ℕ) → AllLines lines → AllLines (remove_line y lines)
AllLines-remove [] y a = a
AllLines-remove (l ∷ lines) zero a = a.1
AllLines-remove (l ∷ lines) (suc y) a = (a.0, AllLines-remove lines y a.1)

length-insert_line :
    (lines : List Line) (y : ℕ) (k : Line)
    → y ≤ length lines
    → (length (insert_line y k lines) ≡ suc (length lines))
      × (get_or (insert_line y k lines) y [] ≡ k)
length-insert_line lines zero k h = (refl, refl)
length-insert_line [] (suc y) k h = absurd (omega arith)
length-insert_line (l ∷ lines) (suc y) k h =
    let (n, e) = length-insert_line lines y k (omega arith) in (ap suc n, e)

pub length-remove_line :
    (lines : List Line) (y : ℕ)
    → y < length lines
    → suc (length (remove_line y lines)) ≡ length lines
length-remove_line [] y h = absurd (omega arith)
length-remove_line (l ∷ lines) zero h = refl
length-remove_line (l ∷ lines) (suc y) h = ap suc (length-remove_line lines y (omega arith))

pub AllAscii-take : (n : ℕ) (s : Line) → AllAscii s → AllAscii (take n s)
AllAscii-take zero s a = ascii_nil
AllAscii-take (suc n) [] a = ascii_nil
AllAscii-take (suc n) (c ∷ s) (ascii h a) = ascii h (AllAscii-take n s a)

pub AllAscii-drop : (n : ℕ) (s : Line) → AllAscii s → AllAscii (drop n s)
AllAscii-drop zero s a = a
AllAscii-drop (suc n) [] a = ascii_nil
AllAscii-drop (suc n) (c ∷ s) (ascii h a) = AllAscii-drop n s a

-- Every offset in a one-byte line is a boundary between characters.
pub split_at_ascii :
    (i : ℕ) (s : Line) → AllAscii s → i ≤ length s → split_at i s ≡ some (take i s, drop i s)
unfolding split_at
split_at_ascii zero [] a h = refl
split_at_ascii zero (c ∷ s) a h = refl
split_at_ascii (suc i) [] a h = absurd (omega arith)
split_at_ascii (suc i) (c ∷ s) (ascii l a) h =
    let one = len_utf8_ascii c l in
    let e : suc i - len_utf8 c ≡ i = omega (arith, one) in
    ground (arith, e, one, split_at_ascii i s a)

module _ (e : Editor) (i : IsEditor e) where
  abbrev pub current : Line
  current = get_or e.lines e.cursor_y []

  pub there : get_elem? e.lines e.cursor_y ≡ some current
  there = get_elem?-get_or e.lines e.cursor_y i.row

  pub current-AllAscii : AllAscii current
  current-AllAscii = AllLines-get e.lines e.cursor_y i.all

  -- The line at the cursor is replaced.
  pub set-IsEditor :
      (l : Line) (x : ℕ)
      → AllAscii l
      → x ≤ length l
      → IsEditor (at (set e.lines e.cursor_y l) x e.cursor_y)
  set-IsEditor l x a h = record {
    all = AllLines-set e.lines e.cursor_y l i.all a;
    row = omega (arith, i.row, length-set e.lines e.cursor_y l);
    column = rw (get_or-set_self e.lines e.cursor_y l [] i.row) h;
  }

  pub insert_plain-Stays : (c : ℕ) → c < 0x80 → Stays (insert_plain c e)
  unfolding insert_plain
  insert_plain-Stays c small =
      let s = current in
      let line' = take e.cursor_x s ++ c ∷ drop e.cursor_x s in
      (
        at (set e.lines e.cursor_y line') (e.cursor_x + 1) e.cursor_y,
        rw (there, split_at_ascii e.cursor_x s current-AllAscii i.column, insert_plain) refl,
        set-IsEditor line' (e.cursor_x + 1)
            (AllAscii-append _ _ (AllAscii-take e.cursor_x s current-AllAscii)
              (ascii small (AllAscii-drop e.cursor_x s current-AllAscii)))
            (omega (
              arith,
              i.column,
              length-append (take e.cursor_x s) (c ∷ drop e.cursor_x s),
              length-take e.cursor_x s,
            )),
      )

  pub insert_newline-Stays : Stays (insert_newline e)
  unfolding insert_newline
  insert_newline-Stays =
      let s = current in
      let before = take e.cursor_x s in
      let after = drop e.cursor_x s in
      let lines = set e.lines e.cursor_y before in
      let n = length-set e.lines e.cursor_y before in
      let (longer, behind) =
        length-insert_line lines (e.cursor_y + 1) after (omega (arith, i.row, n)) in
      (
        at (insert_line (e.cursor_y + 1) after lines) 0 (e.cursor_y + 1),
        rw (there, split_at_ascii e.cursor_x s current-AllAscii i.column, insert_newline) refl,
        record {
          all =
              AllLines-insert lines (e.cursor_y + 1) after
                (AllLines-set e.lines e.cursor_y before i.all
                  (AllAscii-take e.cursor_x s current-AllAscii))
                (AllAscii-drop e.cursor_x s current-AllAscii);
          row = omega (arith, i.row, n, longer);
          column = omega arith;
        },
      )
