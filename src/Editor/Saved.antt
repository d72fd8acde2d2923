-- ===== src/Editor/Saved.antt =====
-- What the editor saves it loads again (src/editor/mod.rs).
use sil_os.Prelude.{
  ℕ, ◌+◌, ◌<◌, ◌≡◌, ◌≢◌, refl, ap, sym, ◌∙◌, arith, false, List, [], ◌∷◌, ◌++◌, ◌==◌, length,
  append_nil, append_assoc, length-append, ne→==, is_empty,
}
use sil_os.Editor.{Line}
use sil_os.Editor.Text.{strip_cr, lines_from, editor_new, join}

-- A line without line feeds and carriage returns.
pub data IsPlain : Line → Type 0 where
  plain_nil : IsPlain []
  plain : {c : ℕ} {s : Line} → c ≢ b'\n' → c ≢ b'\r' → IsPlain s → IsPlain (c ∷ s)

-- One or more plain lines, the last of which is not empty.
pub data IsText : List Line → Type 0 where
  last_line : {l : Line} → IsPlain l → 0 < length l → IsText (l ∷ [])
  line : {l k : Line} {lines : List Line} → IsPlain l → IsText (k ∷ lines) → IsText (l ∷ k ∷ lines)

strip_cr_plain : (s : Line) → IsPlain s → strip_cr s ≡ s
strip_cr_plain [] p = refl
strip_cr_plain (c ∷ s) (plain n r p) = ground (arith, strip_cr_plain s p)

snoc-IsPlain : (s : Line) (c : ℕ) → IsPlain s → c ≢ b'\n' → c ≢ b'\r' → IsPlain (s ++ c ∷ [])
snoc-IsPlain [] c p n r = plain n r plain_nil
snoc-IsPlain (d ∷ s) c (plain n' r' p) n r = plain n' r' (snoc-IsPlain s c p n r)

lines_from_line :
    (current l : Line) (text : List ℕ)
    → IsPlain current
    → IsPlain l
    → lines_from current (l ++ b'\n' ∷ text) ≡ (current ++ l) ∷ lines_from [] text
unfolding lines_from
lines_from_line current [] text p q =
    ap (λ s. s ∷ lines_from [] text) (strip_cr_plain current p ∙ sym (append_nil current))
lines_from_line current (c ∷ l) text p (plain n r q) =
    let other : (c == b'\n') ≡ false = ne→== c b'\n' n in
    rw (other, lines_from)
      (lines_from_line (current ++ c ∷ []) l text (snoc-IsPlain current c p n r) q
        ∙ ap (λ s. s ∷ lines_from [] text) (append_assoc current (c ∷ []) l))

not_empty : (s : Line) → 0 < length s → is_empty s ≡ false
not_empty [] h = absurd (omega arith)
not_empty (c ∷ s) h = refl

lines_from_last :
    (current l : Line)
    → IsPlain l
    → 0 < length current + length l
    → lines_from current l ≡ (current ++ l) ∷ []
unfolding lines_from
lines_from_last current [] q h =
    rw (not_empty current (omega arith)) (ap (λ s. s ∷ []) (sym (append_nil current)))
lines_from_last current (c ∷ l) (plain n r q) h =
    let other : (c == b'\n') ≡ false = ne→== c b'\n' n in
    rw (other, lines_from)
      (lines_from_last (current ++ c ∷ []) l q (omega (arith, length-append current (c ∷ [])))
        ∙ ap (λ s. s ∷ []) (append_assoc current (c ∷ []) l))

lines_from-join : (lines : List Line) → IsText lines → lines_from [] (join lines) ≡ lines
lines_from-join [] t = elim t [ ]
lines_from-join (l ∷ []) (last_line p h) = lines_from_last [] l p (omega arith)
lines_from-join (l ∷ k ∷ lines) (line p t) =
    lines_from_line [] l (join (k ∷ lines)) plain_nil p ∙ ap (l ∷◌) (lines_from-join (k ∷ lines) t)

-- Text of lines without line feeds and carriage returns, the last of which is not empty, is loaded
-- by `Editor::new` as `lines.join` saved it, with the cursor at its start.
pub editor_new-join :
    (lines : List Line)
    → IsText lines
    → ((editor_new (join lines)).lines ≡ lines)
      × ((editor_new (join lines)).cursor_x ≡ 0)
      × ((editor_new (join lines)).cursor_y ≡ 0)
unfolding editor_new
editor_new-join [] t = elim t [ ]
editor_new-join (l ∷ lines) t = (rw (lines_from-join (l ∷ lines) t) refl, refl, refl)
