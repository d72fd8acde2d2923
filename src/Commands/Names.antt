-- ===== src/Commands/Names.antt =====
-- The file names that commands take (src/commands.rs: `resolve_name_ext` and what follows its calls),
-- and `str::parse` for `u32`.
use sil_os.Prelude.{
  ℕ, ◌+◌, ◌-◌, ◌*◌, ◌^◌, ◌&&◌, Option, none, some, List, [], ◌∷◌, ◌==◌, ltb, leb, if◌then◌else◌,
  length, get_elem?, is_empty, min, take, replicate, overwrite, map, utf8,
}
use sil_os.Editor.Text.{to_ascii_uppercase}

abbrev pub push_before : ℕ → Option (List ℕ × List ℕ) → Option (List ℕ × List ℕ)
push_before c none = none
push_before c (some (before, after)) = some (c ∷ before, after)

-- `find('.')`, with the texts before and behind.
unfoldable pub split_dot : List ℕ → Option (List ℕ × List ℕ)
split_dot [] = none
split_dot (c ∷ s) = let rest = split_dot s in if c == b'.' then some ([], s) else push_before c rest

-- `resolve_name_ext`
unfoldable pub resolve_name_ext : List (List ℕ) → ℕ → Option (List ℕ × List ℕ × ℕ)
unfolding split_dot
resolve_name_ext args idx = elim (get_elem? args idx) [
  | none ↦ none
  | some first ↦ elim (split_dot first) [
    | some (name, ext) ↦ some (name, ext, idx + 1)
    | none ↦ elim (get_elem? args (idx + 1)) [ none ↦ none | some ext ↦ some (first, ext, idx + 2) ]
  ]
]

-- `[b' '; n]` with the upper-case bytes of a text over its front.
unfoldable pub padded : ℕ → List ℕ → List ℕ
padded n s =
    let bytes = utf8 (map to_ascii_uppercase s) in
    let len = min n (length bytes) in overwrite 0 (take len bytes) (replicate n 0x20)

abbrev pub parse_digits : ℕ → List ℕ → Option ℕ
parse_digits n [] = some n
parse_digits n (c ∷ s) =
    let d = n * 10 + (c - b'0') in
    let rest = parse_digits d s in if leb b'0' c && leb c b'9' && ltb d (2 ^ 32) then rest else none

abbrev pub strip_plus : List ℕ → List ℕ
strip_plus [] = []
strip_plus (c ∷ s) = if c == b'+' then s else c ∷ s

-- `parse::<u32>()`
unfoldable pub parse_u32 : List ℕ → Option ℕ
parse_u32 s = if is_empty (strip_plus s) then none else parse_digits 0 (strip_plus s)

abbrev pub drop_nul : List ℕ → List ℕ
drop_nul [] = []
drop_nul (c ∷ s) = let rest = drop_nul s in if c == 0 then rest else c ∷ s

abbrev pub snoc_unless : ℕ → List ℕ → List ℕ
snoc_unless c [] = if c == 0 then [] else c ∷ []
snoc_unless c (d ∷ s) = c ∷ d ∷ s

abbrev pub drop_nul_end : List ℕ → List ℕ
drop_nul_end [] = []
drop_nul_end (c ∷ s) = snoc_unless c (drop_nul_end s)

-- `trim_matches('\0')`
unfoldable pub trim_nul : List ℕ → List ℕ
trim_nul s = drop_nul_end (drop_nul s)
