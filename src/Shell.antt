-- ===== src/Shell.antt =====
-- The command line and the history (src/shell.rs). The line is a list of code points.
-- `is_space` decides `char::is_whitespace` beyond ASCII.
use sil_os.Prelude.{ℕ, Bool, Option, none, some, List, [], ◌∷◌, ◌++◌, if◌then◌else◌, is_empty}
use sil_os.Risp.{is_whitespace}

pub record Shell : Type 0 where
  pub current_cmd : List ℕ
  pub past_cmd : List (List (List ℕ))

abbrev pub add : ℕ → Shell → Shell
add char sh = record sh { current_cmd = sh.current_cmd ++ char ∷ [] }

-- `String::pop`
abbrev pub drop_last : List ℕ → List ℕ
drop_last [] = []
drop_last (c ∷ []) = []
drop_last (c ∷ d ∷ line) = c ∷ drop_last (d ∷ line)

abbrev pub pop_char : Shell → Shell
pop_char sh = record sh { current_cmd = drop_last sh.current_cmd }

-- `str::split_whitespace`, with the word that is being read.
unfoldable pub split_words : (ℕ → Bool) → List ℕ → List ℕ → List (List ℕ)
split_words is_space word [] = if is_empty word then [] else word ∷ []
split_words is_space word (c ∷ line) =
    if is_whitespace is_space c
    then (if is_empty word
        then split_words is_space [] line
        else word ∷ split_words is_space [] line)
    else split_words is_space (word ++ c ∷ []) line

unfoldable pub getcmd : (ℕ → Bool) → Shell → Option (List (List ℕ))
unfolding split_words
getcmd is_space sh =
    let params = split_words is_space [] sh.current_cmd in
    if is_empty sh.current_cmd then none else if is_empty params then none else some params

unfoldable pub clear_line : (ℕ → Bool) → Shell → Shell
unfolding getcmd
clear_line is_space sh = elim (getcmd is_space sh) [
  | none ↦ record sh { current_cmd = [] }
  | some curr_cmd ↦ record { current_cmd = []; past_cmd = sh.past_cmd ++ curr_cmd ∷ [] }
]
