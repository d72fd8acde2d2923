-- ===== src/Prelude/Utf8.antt =====
-- UTF-8 as `str` has it: a text is the list of its code points.
use Prim.Native.Nat.{ℕ, zero, suc, ◌+◌, ◌-◌, ◌*◌, ◌/◌, ◌%◌, ◌≤◌, ◌<◌}
use mathlib.Core.Path.{◌≡◌, refl, ap, ◌∙◌}
use mathlib.Core.Bool.{Bool, true, ◌&&◌, ◌||◌}
use mathlib.Core.Option.{Option, none, some}
use mathlib.Core.List.{List, [], ◌∷◌, ◌++◌}
use native.Mathlib.Omega.{arith}
use sil_os.Prelude.Tests.{ltb, leb, ◌==◌, if◌then◌else◌, Bool-cases, ltb→lt, ltb→le}
use mathlib.Core.Logic.{◌⊎◌, inl, inr}
use sil_os.Prelude.Lists.{length, length-append}

-- `char::encode_utf8`
unfoldable pub encode_char : ℕ → List ℕ
encode_char c =
    if ltb c 0x80
    then c ∷ []
    else if ltb c 0x800
    then (0xC0 + c / 64) ∷ (0x80 + c % 64) ∷ []
    else if ltb c 0x10000
    then (0xE0 + c / 4096) ∷ (0x80 + c / 64 % 64) ∷ (0x80 + c % 64) ∷ []
    else (0xF0 + c / 262144) ∷ (0x80 + c / 4096 % 64) ∷ (0x80 + c / 64 % 64) ∷ (0x80 + c % 64) ∷ []

-- `str::as_bytes`
unfoldable pub utf8 : List ℕ → List ℕ
utf8 [] = []
utf8 (c ∷ s) = encode_char c ++ utf8 s

-- A character and the bytes behind it, or the bytes behind the longest start of one.
pub data Next : Type 0 where
  next_char : ℕ → List ℕ → Next
  invalid : List ℕ → Next

-- `n + 1` continuation bytes, of which the first lies from `lo` to `hi`.
unfoldable pub continue : ℕ → ℕ → ℕ → ℕ → List ℕ → Next
continue n lo hi acc [] = invalid []
continue zero lo hi acc (b ∷ s) =
    if leb lo b && leb b hi then next_char (acc * 64 + (b - 0x80)) s else invalid (b ∷ s)
continue (suc n) lo hi acc (b ∷ s) =
    let rest = continue n 0x80 0xBF (acc * 64 + (b - 0x80)) s in
    if leb lo b && leb b hi then rest else invalid (b ∷ s)

-- By the first byte: overlong forms, surrogates and what lies beyond U+10FFFF are invalid.
unfoldable pub next : ℕ → List ℕ → Next
unfolding continue
next b s =
    if ltb b 0x80
    then next_char b s
    else if ltb b 0xC2
    then invalid s
    else if ltb b 0xE0
    then continue 0 0x80 0xBF (b - 0xC0) s
    else if ltb b 0xF0
    then continue 1 (if b == 0xE0 then 0xA0 else 0x80) (if b == 0xED then 0x9F else 0xBF) (b - 0xE0)
        s
    else if ltb b 0xF5
    then continue 2 (if b == 0xF0 then 0x90 else 0x80) (if b == 0xF4 then 0x8F else 0xBF) (b - 0xF0)
        s
    else invalid s

abbrev cons_some : ℕ → Option (List ℕ) → Option (List ℕ)
cons_some c none = none
cons_some c (some s) = some (c ∷ s)

-- Each round takes a byte at least.
unfoldable pub decode : ℕ → List ℕ → Option (List ℕ)
unfolding next
decode f [] = some []
decode zero (b ∷ s) = none
decode (suc f) (b ∷ s) = elim (next b s) [
  | next_char c rest ↦ cons_some c (decode f rest)
  | invalid rest ↦ none
]

-- `core::str::from_utf8`
unfoldable pub from_utf8 : List ℕ → Option (List ℕ)
unfolding decode
from_utf8 bytes = decode (length bytes) bytes

unfoldable pub decode_lossy : ℕ → List ℕ → List ℕ
unfolding next
decode_lossy f [] = []
decode_lossy zero (b ∷ s) = []
decode_lossy (suc f) (b ∷ s) = elim (next b s) [
  | next_char c rest ↦ c ∷ decode_lossy f rest
  | invalid rest ↦ 0xFFFD ∷ decode_lossy f rest
]

-- `String::from_utf8_lossy`
unfoldable pub from_utf8_lossy : List ℕ → List ℕ
unfolding decode_lossy
from_utf8_lossy bytes = decode_lossy (length bytes) bytes

-- The Unicode scalar values, of which texts are made.
abbrev pub is_scalar : ℕ → Bool
is_scalar c = ltb c 0xD800 || leb 0xE000 c && ltb c 0x110000

pub data IsStr : List ℕ → Type 0 where
  str_nil : IsStr []
  str_cons : {c : ℕ} {s : List ℕ} → is_scalar c ≡ true → IsStr s → IsStr (c ∷ s)

-- The character at the front of some bytes.
abbrev front : List ℕ → Next
front [] = invalid []
front (b ∷ s) = next b s

front-encode_char_1 : (c : ℕ) (s : List ℕ) → c < 0x80 → front (encode_char c ++ s) ≡ next_char c s
unfolding encode_char next
front-encode_char_1 c s h = ground arith

front-encode_char_2 :
    (c : ℕ) (s : List ℕ) → 0x80 ≤ c → c < 0x800 → front (encode_char c ++ s) ≡ next_char c s
unfolding encode_char next continue
front-encode_char_2 c s l h = ground arith

front-encode_char_3 :
    (c : ℕ) (s : List ℕ)
    → 0x800 ≤ c
    → c < 0x10000
    → is_scalar c ≡ true
    → front (encode_char c ++ s) ≡ next_char c s
unfolding encode_char next continue
front-encode_char_3 c s l h i = ground arith

front-encode_char_4 :
    (c : ℕ) (s : List ℕ) → 0x10000 ≤ c → c < 0x110000 → front (encode_char c ++ s) ≡ next_char c s
unfolding encode_char next continue
front-encode_char_4 c s l h = ground arith

front-encode_char :
    (c : ℕ) (s : List ℕ) → is_scalar c ≡ true → front (encode_char c ++ s) ≡ next_char c s
front-encode_char c s h = elim (Bool-cases (ltb c 0x80)) [
  | inl e ↦ front-encode_char_1 c s (ltb→lt c 0x80 e)
  | inr e ↦ elim (Bool-cases (ltb c 0x800)) [
    | inl e2 ↦ front-encode_char_2 c s (ltb→le c 0x80 e) (ltb→lt c 0x800 e2)
    | inr e2 ↦ elim (Bool-cases (ltb c 0x10000)) [
      | inl e3 ↦ front-encode_char_3 c s (ltb→le c 0x800 e2) (ltb→lt c 0x10000 e3) h
      | inr e3 ↦ front-encode_char_4 c s (ltb→le c 0x10000 e3) (ground arith)
    ]
  ]
]

decode-front :
    (f : ℕ) (bytes : List ℕ) (c : ℕ) (rest : List ℕ)
    → front bytes ≡ next_char c rest
    → decode (suc f) bytes ≡ cons_some c (decode f rest)
unfolding decode
decode-front f [] c rest e = ground arith
decode-front f (b ∷ s) c rest e = let n : next b s ≡ next_char c rest = e in rw (n, decode) refl

length-encode_char : (c : ℕ) → 0 < length (encode_char c)
unfolding encode_char
length-encode_char c = ground arith

decode-utf8 : (f : ℕ) (s : List ℕ) → IsStr s → length (utf8 s) ≤ f → decode f (utf8 s) ≡ some s
unfolding utf8
decode-utf8 f [] h l = unfold decode in refl
decode-utf8 zero (c ∷ s) h l =
    absurd (omega (arith, length-encode_char c, length-append (encode_char c) (utf8 s)))
decode-utf8 (suc f) (c ∷ s) (str_cons i h) l =
    decode-front f (encode_char c ++ utf8 s) c (utf8 s) (front-encode_char c (utf8 s) i)
    ∙ ap (cons_some c) (
        decode-utf8 f s h
          (omega (arith, length-encode_char c, length-append (encode_char c) (utf8 s), l)))

-- A text's bytes are read as that text.
pub from_utf8-utf8 : (s : List ℕ) → IsStr s → from_utf8 (utf8 s) ≡ some s
unfolding from_utf8
from_utf8-utf8 s h = decode-utf8 (length (utf8 s)) s h (omega arith)

cons_some-eq-some :
    (c : ℕ) (m : Option (List ℕ)) (s : List ℕ)
    → cons_some c m ≡ some s
    → (t : List ℕ) × (m ≡ some t) × (c ∷ t ≡ s)
cons_some-eq-some c none s e = cc
cons_some-eq-some c (some t) s e = (t, refl, cc)

Next-cases :
    (n : Next)
    → ((c : ℕ) × (rest : List ℕ) × (n ≡ next_char c rest)) ⊎ ((rest : List ℕ) × (n ≡ invalid rest))
Next-cases (next_char c rest) = inl (c, rest, refl)
Next-cases (invalid rest) = inr (rest, refl)

-- Where nothing is invalid, nothing is replaced.
decode_lossy-decode :
    (f : ℕ) (bytes s : List ℕ) → decode f bytes ≡ some s → decode_lossy f bytes ≡ s
unfolding decode decode_lossy
decode_lossy-decode zero [] s e = cc
decode_lossy-decode (suc f) [] s e = cc
decode_lossy-decode zero (b ∷ bytes) s e = cc
decode_lossy-decode (suc f) (b ∷ bytes) s e = elim (Next-cases (next b bytes)) [
  | inl (c, rest, n) ↦
      let (t, m, same) = cons_some-eq-some c (decode f rest) s (rw (n, decode) at e) in
      rw (n, decode_lossy) (ap (c ∷◌) (decode_lossy-decode f rest t m) ∙ same)
  | inr (rest, n) ↦ cc (rw (n, decode) at e)
]

pub from_utf8_lossy-utf8 : (s : List ℕ) → IsStr s → from_utf8_lossy (utf8 s) ≡ s
unfolding from_utf8_lossy from_utf8
from_utf8_lossy-utf8 s h = decode_lossy-decode (length (utf8 s)) (utf8 s) s (from_utf8-utf8 s h)
