-- ===== src/Commands/SameFile.antt =====
-- The names of files in the editor and in the other commands (src/editor/mod.rs: `run_editor`,
-- `format_fat16_name`; src/commands.rs: `resolve_name_ext`).
use sil_os.Prelude.{
  ℕ, zero, suc, ◌≡◌, refl, sym, ap, ◌∙◌, arith, some, List, [], ◌∷◌, ◌++◌, take, map, replicate,
  overwrite, utf8, encode_char, take-min,
}
use sil_os.Risp.{Token}
use sil_os.Editor.Text.{to_ascii_uppercase}
use sil_os.Commands.Names.{resolve_name_ext, padded}
use sil_os.Commands.Session.{edit_name, fat_name}

map-append : (f : ℕ → ℕ) (s t : List ℕ) → map f (s ++ t) ≡ map f s ++ map f t
map-append f [] t = refl
map-append f (c ∷ s) t = ap (λ r. f c ∷ r) (map-append f s t)

map-take : (f : ℕ → ℕ) (n : ℕ) (s : List ℕ) → map f (take n s) ≡ take n (map f s)
map-take f zero s = refl
map-take f (suc n) [] = refl
map-take f (suc n) (c ∷ s) = ap (λ r. f c ∷ r) (map-take f n s)

-- The bytes of the characters that are not ASCII are no lower-case letters.
encode_char-upper :
    (c : ℕ) → encode_char (to_ascii_uppercase c) ≡ map to_ascii_uppercase (encode_char c)
unfolding encode_char
encode_char-upper c = ground arith

utf8-upper : (s : List ℕ) → utf8 (map to_ascii_uppercase s) ≡ map to_ascii_uppercase (utf8 s)
unfolding utf8
utf8-upper [] = refl
utf8-upper (c ∷ s) =
    rw (encode_char-upper c, utf8-upper s)
      (sym (map-append to_ascii_uppercase (encode_char c) (utf8 s)))

padded-bytes :
    (n : ℕ) (s : List ℕ)
    → overwrite 0 (map to_ascii_uppercase (take n (utf8 s))) (replicate n 0x20) ≡ padded n s
unfolding padded
padded-bytes n s =
    ap (λ t. overwrite 0 t (replicate n 0x20))
      (map-take to_ascii_uppercase n (utf8 s)
        ∙ ap (take n) (sym (utf8-upper s))
        ∙ sym (take-min n (utf8 (map to_ascii_uppercase s))))

edit_name-resolved :
    (args : List Token) (name_str ext_str : List ℕ) (next : ℕ)
    → resolve_name_ext args 1 ≡ some (name_str, ext_str, next)
    → edit_name args ≡ (name_str, ext_str)
unfolding edit_name resolve_name_ext
edit_name-resolved args name_str ext_str next r = ground (arith, r)

-- Where the words name a file to `cat`, `run`, `mkdir` and `edit`, the editor opens the file with
-- the same eight and three bytes.
pub fat_name-resolved :
    (args : List Token) (name_str ext_str : List ℕ) (next : ℕ)
    → resolve_name_ext args 1 ≡ some (name_str, ext_str, next)
    → fat_name args ≡ (padded 8 name_str, padded 3 ext_str)
fat_name-resolved args name_str ext_str next r =
    rw (edit_name-resolved args name_str ext_str next r)
      λ i. (padded-bytes 8 name_str i, padded-bytes 3 ext_str i)
