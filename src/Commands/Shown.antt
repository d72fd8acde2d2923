-- ===== src/Commands/Shown.antt =====
-- `write`, and then `show` (src/commands.rs: `write`, `read_as_string`).
use sil_os.Prelude.{
  ℕ, zero, suc, ◌+◌, ◌-◌, ◌≤◌, ◌≡◌, ◌≢◌, refl, sym, ap, ◌∙◌, arith, false, some, List, [], ◌∷◌,
  ◌++◌, ltb, length, codes, join_by, utf8, encode_char, from_utf8, IsStr, str_nil, str_cons,
  from_utf8-utf8, replicate, overwrite, append_assoc,
}
use sil_os.Risp.{Token}
use sil_os.Fat16.{Disk, read_block, write_block}
use sil_os.Commands.{Kernel}
use sil_os.Commands.Names.{parse_u32, trim_nul, drop_nul, snoc_unless, drop_nul_end}
use sil_os.Commands.Output.{say, worked}
use sil_os.Commands.Sectors.{low_28_bits, write, read_as_string}

-- A text without the character NUL.
pub data NoNul : List ℕ → Type 0 where
  nul_nil : NoNul []
  nul_cons : {c : ℕ} {s : List ℕ} → c ≢ 0 → NoNul s → NoNul (c ∷ s)

overwrite-replicate :
    (n m : ℕ) (s : List ℕ) → n ≡ length s + m → overwrite 0 s (replicate n 0) ≡ s ++ replicate m 0
overwrite-replicate n m [] h = ap (λ t. replicate t 0) (omega arith)
overwrite-replicate zero m (c ∷ s) h = absurd (omega arith)
overwrite-replicate (suc n) m (c ∷ s) h = ap (λ t. c ∷ t) (overwrite-replicate n m s (omega arith))

utf8-zeros : (s : List ℕ) (m : ℕ) → utf8 (s ++ replicate m 0) ≡ utf8 s ++ replicate m 0
unfolding utf8 encode_char
utf8-zeros [] zero = refl
utf8-zeros [] (suc m) = ap (λ t. 0 ∷ t) (utf8-zeros [] m)
utf8-zeros (c ∷ s) m =
    ap (λ t. encode_char c ++ t) (utf8-zeros s m)
    ∙ sym (append_assoc (encode_char c) (utf8 s) (replicate m 0))

IsStr-zeros : (s : List ℕ) (m : ℕ) → IsStr s → IsStr (s ++ replicate m 0)
IsStr-zeros s zero str_nil = str_nil
IsStr-zeros s (suc m) str_nil = str_cons refl (IsStr-zeros [] m str_nil)
IsStr-zeros s m (str_cons i h) = str_cons i (IsStr-zeros _ m h)

drop_nul_end-zeros : (m : ℕ) → drop_nul_end (replicate m 0) ≡ []
drop_nul_end-zeros zero = refl
drop_nul_end-zeros (suc m) = rw (drop_nul_end-zeros m) refl

drop_nul_end-text : (s : List ℕ) (m : ℕ) → NoNul s → drop_nul_end (s ++ replicate m 0) ≡ s
drop_nul_end-text s m nul_nil = drop_nul_end-zeros m
drop_nul_end-text (c ∷ s) m (nul_cons n h) = rw (drop_nul_end-text s m h) (kept s)
  where
    kept : (t : List ℕ) → snoc_unless c t ≡ c ∷ t
    kept [] = ground (arith, n)
    kept (d ∷ t) = refl

drop_nul-zeros : (m : ℕ) → drop_nul (replicate m 0) ≡ []
drop_nul-zeros zero = refl
drop_nul-zeros (suc m) = drop_nul-zeros m

trim_nul-text : (s : List ℕ) (m : ℕ) → NoNul s → trim_nul (s ++ replicate m 0) ≡ s
unfolding trim_nul
trim_nul-text s m nul_nil = rw (drop_nul-zeros m) refl
trim_nul-text (c ∷ s) m (nul_cons n h) =
    ap drop_nul_end (front (s ++ replicate m 0)) ∙ drop_nul_end-text (c ∷ s) m (nul_cons n h)
  where
    front : (t : List ℕ) → drop_nul (c ∷ t) ≡ c ∷ t
    front t = ground (arith, n)

from_utf8-sector :
    (s : List ℕ)
    → IsStr s
    → length (utf8 s) ≤ 512
    → from_utf8 (overwrite 0 (utf8 s) (replicate 512 0))
      ≡ some (s ++ replicate (512 - length (utf8 s)) 0)
from_utf8-sector s h l =
    ap from_utf8 (overwrite-replicate 512 _ (utf8 s) (omega arith) ∙ sym (utf8-zeros s _))
    ∙ from_utf8-utf8 _ (IsStr-zeros s _ h)

three_words : (n : ℕ) → ltb (suc (suc (suc n))) 3 ≡ false
three_words n = ground arith

le→ltb : (a b : ℕ) → a ≤ b → ltb b a ≡ false
le→ltb a b h = ground arith

write_block_self : (loc : ℕ) (bytes : List ℕ) (d : Disk) → write_block loc bytes d loc ≡ bytes
unfolding write_block
write_block_self loc bytes d = ground arith

write_block_ne : (loc l : ℕ) (bytes : List ℕ) (d : Disk) → l ≢ loc → write_block loc bytes d l ≡ d l
unfolding write_block
write_block_ne loc l bytes d n = ground arith

module _ {E : Type 0} (number : Token) (loc : ℕ) (k : Kernel E) where
  read_as_string-text :
      (show : Token)
      → parse_u32 number ≡ some loc
      → (text : List ℕ) → from_utf8 (read_block (low_28_bits loc) k.disk) ≡ some text
      → read_as_string (show ∷ number ∷ []) k ≡ say (trim_nul text) k (worked (codes "Worked"))
  unfolding read_as_string
  read_as_string-text show p text u = rw (p, u, read_as_string) refl

module _ {E : Type 0} (name number word : Token) (words : List Token) (loc : ℕ) (k : Kernel E) where
  abbrev pub line : List ℕ
  line = join_by (codes " ") (word ∷ words)

  -- The kernel after `write`, of which only the sector is changed.
  abbrev pub written : Kernel E
  written = record k {
    disk = write_block (low_28_bits loc) (overwrite 0 (utf8 line) (replicate 512 0)) k.disk;
  }

  write-done :
      parse_u32 number ≡ some loc
      → length (utf8 line) ≤ 512
      → write (name ∷ number ∷ word ∷ words) k
        ≡ worked (codes "Sector written successfully") written
  unfolding write write_block
  write-done p l =
      rw (p, write) (rw (three_words (length words), le→ltb (length (utf8 line)) 512 l) refl)

  text_shown :
      (show : Token)
      → parse_u32 number ≡ some loc
      → IsStr line
      → NoNul line
      → length (utf8 line) ≤ 512
      → read_as_string (show ∷ number ∷ []) written ≡ say line written (worked (codes "Worked"))
  text_shown show p s n l =
      read_as_string-text number loc written show p (line ++ replicate (512 - length (utf8 line)) 0)
        (ap from_utf8
            (write_block_self (low_28_bits loc) (overwrite 0 (utf8 line) (replicate 512 0)) k.disk)
          ∙ from_utf8-sector line s l)
      ∙ ap (λ t. say t written (worked (codes "Worked"))) (trim_nul-text line _ n)

  -- If `number` is a number of 32 bits, and the words behind it are a text of at most 512 bytes
  -- without NUL, `write` succeeds, `show` of that number then prints the text, and no sector is
  -- changed but the one that the low 28 bits of the number give.
  pub write-read_as_string :
      (show : Token)
      → parse_u32 number ≡ some loc
      → length (utf8 line) ≤ 512
      → IsStr line
      → NoNul line
      → (l : ℕ) → l ≢ low_28_bits loc
      → (write (name ∷ number ∷ word ∷ words) k
          ≡ worked (codes "Sector written successfully") written)
        × (read_as_string (show ∷ number ∷ []) written ≡ say line written (worked (codes "Worked")))
        × (read_block l written.disk ≡ read_block l k.disk)
  write-read_as_string show p l s n i ne = (
    write-done p l,
    text_shown show p s n l,
    write_block_ne (low_28_bits loc) i (overwrite 0 (utf8 line) (replicate 512 0)) k.disk ne,
  )
