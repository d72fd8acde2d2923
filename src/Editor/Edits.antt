-- ===== src/Editor/Edits.antt =====
-- Editing at the cursor (src/editor/mod.rs), on text of one-byte characters.
use sil_os.Prelude.{
  ℕ, suc, ◌+◌, ◌-◌, ◌<◌, ◌≡◌, ◌≢◌, refl, ap, sym, ◌∙◌, arith, false, some, List, [], ◌∷◌, ◌++◌,
  ◌==◌, length, get_elem?, set, length-append, append_assoc,
}
use sil_os.Editor.{
  Line, Editor, at, len_utf8, byte_len, split_at, insert_line, remove_line, insert_newline,
  insert_plain, insert_char,
}

pub data AllAscii : Line → Type 0 where
  ascii_nil : AllAscii []
  ascii : {c : ℕ} {s : Line} → c < 0x80 → AllAscii s → AllAscii (c ∷ s)

pub len_utf8_ascii : (c : ℕ) → c < 0x80 → len_utf8 c ≡ 1
len_utf8_ascii c h = ground arith

pub byte_len_ascii : (s : Line) → AllAscii s → byte_len s ≡ length s
byte_len_ascii [] a = refl
byte_len_ascii (c ∷ s) (ascii h a) = omega (arith, len_utf8_ascii c h, byte_len_ascii s a)

-- Behind a one-byte prefix lies a character boundary.
pub split_at-append :
    (before after : Line)
    → AllAscii before
    → split_at (length before) (before ++ after) ≡ some (before, after)
unfolding split_at
split_at-append [] [] a = refl
split_at-append [] (c ∷ after) a = refl
split_at-append (c ∷ before) after (ascii h a) =
    let one = len_utf8_ascii c h in
    let e : suc (length before) - len_utf8 c ≡ length before = omega (arith, one) in
    ground (arith, e, one, split_at-append before after a)

pub get_elem?-middle :
    (pre : List Line) (l : Line) (post : List Line)
    → get_elem? (pre ++ l ∷ post) (length pre) ≡ some l
get_elem?-middle [] l post = refl
get_elem?-middle (k ∷ pre) l post = get_elem?-middle pre l post

pub set-middle :
    (pre : List Line) (l k : Line) (post : List Line)
    → set (pre ++ l ∷ post) (length pre) k ≡ pre ++ k ∷ post
set-middle [] l k post = refl
set-middle (j ∷ pre) l k post = ap (j ∷◌) (set-middle pre l k post)

insert_line-middle :
    (pre : List Line) (l k : Line) (post : List Line)
    → insert_line (suc (length pre)) k (pre ++ l ∷ post) ≡ pre ++ l ∷ k ∷ post
insert_line-middle [] l k post = refl
insert_line-middle (j ∷ pre) l k post = ap (j ∷◌) (insert_line-middle pre l k post)

pub remove_line-middle :
    (pre : List Line) (l : Line) (post : List Line)
    → remove_line (length pre) (pre ++ l ∷ post) ≡ pre ++ post
remove_line-middle [] l post = refl
remove_line-middle (j ∷ pre) l post = ap (j ∷◌) (remove_line-middle pre l post)

-- The cursor of `e` stands between `before` and `after` on its line, under the lines `above` and
-- over the lines `below`, and `before` consists of one-byte characters.
pub record Cursor (e : Editor) (above : List Line) (before after : Line) (below : List Line)
    : Type 0 where
  pub lines : e.lines ≡ above ++ (before ++ after) ∷ below
  pub row : e.cursor_y ≡ length above
  pub column : e.cursor_x ≡ length before
  pub bytes : AllAscii before

module _ (e : Editor) (above : List Line) (before after : Line) (below : List Line)
    (c : Cursor e above before after below) where
  pub here : get_elem? e.lines e.cursor_y ≡ some (before ++ after)
  here =
      ap (λ ls. get_elem? ls e.cursor_y) c.lines
      ∙ ap (get_elem? (above ++ (before ++ after) ∷ below)) c.row
      ∙ get_elem?-middle above (before ++ after) below

  pub cut : split_at e.cursor_x (before ++ after) ≡ some (before, after)
  cut = ap (λ i. split_at i (before ++ after)) c.column ∙ split_at-append before after c.bytes

  pub replaced : (k : Line) → set e.lines e.cursor_y k ≡ above ++ k ∷ below
  replaced k =
      ap (λ ls. set ls e.cursor_y k) c.lines
      ∙ ap (λ y. set (above ++ (before ++ after) ∷ below) y k) c.row
      ∙ set-middle above (before ++ after) k below

pub AllAscii-append : (s t : Line) → AllAscii s → AllAscii t → AllAscii (s ++ t)
AllAscii-append [] t a b = b
AllAscii-append (c ∷ s) t (ascii h a) b = ascii h (AllAscii-append s t a b)

module _ (e : Editor) (above : List Line) (before after : Line) (below : List Line)
    (c : Cursor e above before after below) where
  -- With one-byte characters before the cursor on its line, a one-byte character other than a line
  -- feed is inserted at the cursor, which moves behind it.
  pub insert_char-Cursor :
      (ch : ℕ)
      → ch < 0x80
      → ch ≢ b'\n'
      → (e' : Editor) × (insert_char ch e ≡ some e')
        × Cursor e' above (before ++ ch ∷ []) after below
  unfolding insert_char insert_plain
  insert_char-Cursor ch small other =
      let plain : (ch == b'\n') ≡ false = ground arith in
      let line' = before ++ ch ∷ after in
      (
        at (set e.lines e.cursor_y line') (e.cursor_x + 1) e.cursor_y,
        rw
            (
              plain,
              here e above before after below c,
              cut e above before after below c,
              insert_plain,
            )
            refl,
        record {
          lines =
              replaced e above before after below c line'
              ∙ ap (λ k. above ++ k ∷ below) (sym (append_assoc before (ch ∷ []) after));
          row = c.row;
          column = omega (arith, c.column, length-append before (ch ∷ []));
          bytes = AllAscii-append before (ch ∷ []) c.bytes (ascii small ascii_nil);
        },
      )

  -- With one-byte characters before the cursor on its line, a line feed breaks the line at the
  -- cursor, which goes to the start of the second half.
  pub insert_newline-Cursor :
      (e' : Editor) × (insert_char b'\n' e ≡ some e')
      × Cursor e' (above ++ before ∷ []) [] after below
  unfolding insert_char insert_newline
  insert_newline-Cursor =
      let broken = insert_line (e.cursor_y + 1) after (set e.lines e.cursor_y before) in
      let next : e.cursor_y + 1 ≡ suc (length above) = omega (arith, c.row) in
      (
        at broken 0 (e.cursor_y + 1),
        rw (here e above before after below c, cut e above before after below c, insert_newline)
            refl,
        record {
          lines =
              ap (λ ls. insert_line (e.cursor_y + 1) after ls)
                (replaced e above before after below c before)
              ∙ ap (λ y. insert_line y after (above ++ before ∷ below)) next
              ∙ insert_line-middle above before after below
              ∙ sym (append_assoc above (before ∷ []) (after ∷ below));
          row = omega (arith, c.row, length-append above (before ∷ []));
          column = refl;
          bytes = ascii_nil;
        },
      )
