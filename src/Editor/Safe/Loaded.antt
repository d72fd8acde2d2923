-- ===== src/Editor/Safe/Loaded.antt =====
-- One-byte text as `Editor::new` loads it, and the names of files (src/editor/mod.rs).
use sil_os.Prelude.{
  ℕ, ◌<◌, ◌⊎◌, ◌≡◌, inl, inr, arith, false, List, [], ◌∷◌, ◌++◌, ◌==◌, ◌&&◌, Bool-cases, is_empty,
  length,
}
use sil_os.Editor.{Line}
use sil_os.Editor.Text.{strip_cr, lines_from, editor_new}
use sil_os.Editor.Edits.{AllAscii, ascii_nil, ascii, AllAscii-append}
use sil_os.Editor.Safe.{AllLines, IsEditor}

strip_cr-AllAscii : (s : Line) → AllAscii s → AllAscii (strip_cr s)
strip_cr-AllAscii [] a = ascii_nil
strip_cr-AllAscii (c ∷ s) (ascii h a) = elim (Bool-cases (c == b'\r' && is_empty s)) [
  | inl end ↦ rw end ascii_nil
  | inr on ↦ rw on (ascii h (strip_cr-AllAscii s a))
]

lines_from-AllLines :
    (current : Line) (text : List ℕ)
    → AllAscii current
    → AllAscii text
    → AllLines (lines_from current text)
unfolding lines_from
lines_from-AllLines current [] a b = elim (Bool-cases (is_empty current)) [
  | inl nothing ↦ rw nothing tt
  | inr last ↦ rw last (a, tt)
]
lines_from-AllLines current (c ∷ text) a (ascii h b) = elim (Bool-cases (c == b'\n')) [
  | inl end ↦ rw end (strip_cr-AllAscii current a, lines_from-AllLines [] text ascii_nil b)
  | inr on ↦ rw on (
      lines_from-AllLines (current ++ c ∷ []) text
        (AllAscii-append current (c ∷ []) a (ascii h ascii_nil)) b)
]

some_line : (lines : List Line) → is_empty lines ≡ false → 0 < length lines
some_line [] e = cc
some_line (l ∷ lines) e = omega arith

-- One-byte text is loaded with the cursor in it.
pub editor_new-IsEditor : (text : List ℕ) → AllAscii text → IsEditor (editor_new text)
unfolding editor_new
editor_new-IsEditor text a = elim (Bool-cases (is_empty (lines_from [] text))) [
  | inl nothing ↦
      rw nothing (record { all = (ascii_nil, tt); row = omega arith; column = omega arith })
  | inr lines ↦ rw lines (record {
    all = lines_from-AllLines [] text ascii_nil a;
    row = some_line (lines_from [] text) lines;
    column = omega arith;
  })
]

-- No byte is one of the codes 97 to 122, the lower-case letters.
abbrev pub AllUpper : List ℕ → Type 0
AllUpper [] = Unit
AllUpper (c ∷ s) = ((c < 97) ⊎ (122 < c)) × AllUpper s

-- A field of a name: of its full length, padded, without lower-case letters.
abbrev pub IsField : ℕ → List ℕ → Type 0
IsField n s = (length s ≡ n) × AllUpper s
