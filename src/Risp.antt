-- ===== src/Risp.antt =====
-- The reader of the shell's Lisp (src/parser.rs: `tokenize`, `parse`, `read_seq`, `parse_atom`).
-- Text is a list of code points. What `str::parse::<f64>` does with a token is a parameter.
pub mod Reader
pub mod Grammar
pub mod Values
pub mod Env
pub mod System
pub mod Bounds
pub mod Keys
pub mod Display
pub mod Builtins
pub mod Eval
pub mod Interpret
use sil_os.Prelude.{
  ℕ, zero, suc, ◌+◌, ◌-◌, Bool, true, false, ◌&&◌, ◌||◌, Option, none, some, List, [], ◌∷◌, ◌++◌,
  leb, ◌==◌, if◌then◌else◌, length, is_empty, same_bytes, take, drop, get_or, ℤ,
}

abbrev pub Token : Type 0
Token = List ℕ

abbrev pub open_paren : Token
open_paren = b'(' ∷ []

abbrev pub close_paren : Token
close_paren = b')' ∷ []

-- The ASCII white space of `char::is_whitespace`; `is_space` decides it for other characters.
abbrev pub is_whitespace : (ℕ → Bool) → ℕ → Bool
is_whitespace is_space c = leb 9 c && leb c 13 || c == 32 || leb 128 c && is_space c

-- `tokens`, `current_token`, `in_string` and `in_comment`.
pub record Scanner : Type 0 where
  pub tokens : List Token
  pub current_token : Token
  pub in_string : Bool
  pub in_comment : Bool

-- `if !current_token.is_empty() { tokens.push(current_token.clone()); current_token.clear(); }`
abbrev pub finish_token : Scanner → Scanner
finish_token s =
    if is_empty s.current_token
    then s
    else (record s { tokens = s.tokens ++ s.current_token ∷ []; current_token = [] })

abbrev pub scan_string : ℕ → Scanner → Scanner
scan_string c s =
    let token = s.current_token ++ c ∷ [] in
    if c == b'"'
    then (record s { tokens = s.tokens ++ token ∷ []; current_token = []; in_string = false })
    else (record s { current_token = token })

abbrev pub scan_plain : (ℕ → Bool) → ℕ → Scanner → Scanner
scan_plain is_space c s =
    if c == b'#'
    then (record (finish_token s) { in_comment = true })
    else if c == b'"'
    then (record (finish_token s) { in_string = true; current_token = c ∷ [] })
    else if c == b'(' || c == b')'
    then (record (finish_token s) { tokens = (finish_token s).tokens ++ (c ∷ []) ∷ [] })
    else if is_whitespace is_space c
    then finish_token s
    else (record s { current_token = s.current_token ++ c ∷ [] })

-- The body of `for c in expr.chars()`.
unfoldable pub scan : (ℕ → Bool) → ℕ → Scanner → Scanner
scan is_space c s =
    if s.in_comment
    then (if c == b'#' then (record s { in_comment = false }) else s)
    else if s.in_string
    then scan_string c s
    else scan_plain is_space c s

unfoldable pub scan_all : (ℕ → Bool) → List ℕ → Scanner → Scanner
unfolding scan
scan_all is_space [] s = s
scan_all is_space (c ∷ expr) s = scan_all is_space expr (scan is_space c s)

unfoldable pub tokenize : (ℕ → Bool) → List ℕ → List Token
unfolding scan_all
tokenize is_space expr =
    (finish_token (
      scan_all is_space expr
        (record { tokens = []; current_token = []; in_string = false; in_comment = false }))).tokens

-- `RispKey`
pub data RispKey : Type 0 where
  string_key : List ℕ → RispKey
  number_key : ℤ → RispKey
  bool_key : Bool → RispKey

-- The functions of the default environment, the only ones that the code makes function values of.
pub data Builtin : Type 0 where
  add_fn sub_fn eq_fn ne_fn gt_fn ge_fn lt_fn le_fn mul_fn div_fn and_fn : Builtin
  list_fn len_fn index_fn map_fn mkeys_fn : Builtin

-- Expressions; `F` is the type of floats. A lambda holds its parameters, its body and the
-- environment that it captured; environments and maps hold expressions in turn.
mutual
  pub data RispExp (F : Type 0) : Type 0 where
    bool : Bool → RispExp F
    symbol : Token → RispExp F
    number : F → RispExp F
    string : List ℕ → RispExp F
    list : RispExps F → RispExp F
    map : RispMap F → RispExp F
    func : Builtin → RispExp F
    lambda : RispExp F → RispExp F → RispEnv F → RispExp F
    syscall : List Token → RispExp F

  pub data RispExps (F : Type 0) : Type 0 where
    exps_nil : RispExps F
    exps_cons : RispExp F → RispExps F → RispExps F

  pub data RispMap (F : Type 0) : Type 0 where
    map_nil : RispMap F
    map_cons : RispKey → RispExp F → RispMap F → RispMap F

  pub data RispEnv (F : Type 0) : Type 0 where
    env_nil : RispEnv F
    env_cons : Token → RispExp F → RispEnv F → RispEnv F

pub data RispErr : Type 0 where
  no_token : RispErr
  unexpected_close : RispErr
  no_close : RispErr

-- `Ok`, `Err`, a panic, or no answer within the fuel.
pub data Parsed (A : Type 0) : Type 0 where
  ok : A → List Token → Parsed A
  err : RispErr → Parsed A
  panic : Parsed A
  out_of_fuel : Parsed A

abbrev pub true_word : Token
true_word = b't' ∷ b'r' ∷ b'u' ∷ b'e' ∷ []

abbrev pub false_word : Token
false_word = b'f' ∷ b'a' ∷ b'l' ∷ b's' ∷ b'e' ∷ []

-- `token.starts_with('"') && token.ends_with('"')`
abbrev pub is_quoted : Token → Bool
is_quoted [] = false
is_quoted (c ∷ s) = c == b'"' && get_or (c ∷ s) (length s) 0 == b'"'

module _ {F : Type 0} (parse_float : Token → Option F) where
  -- A token `"` alone panics: `token[1..0]` is no slice.
  unfoldable pub parse_atom : Token → Option (RispExp F)
  parse_atom token =
      if same_bytes token true_word
      then some (bool true)
      else if same_bytes token false_word
      then some (bool false)
      else if is_quoted token
      then (if leb 2 (length token)
          then some (string (take (length token - 2) (drop 1 token)))
          else none)
      else (elim (parse_float token) [ some v ↦ some (number v) | none ↦ some (symbol token) ])

  abbrev pub atom : Token → List Token → Parsed (RispExp F)
  atom token rest = elim (parse_atom token) [ none ↦ panic | some e ↦ ok e rest ]

  abbrev pub as_list : Parsed (RispExps F) → Parsed (RispExp F)
  as_list (ok es rest) = ok (list es) rest
  as_list (err e) = err e
  as_list panic = panic
  as_list out_of_fuel = out_of_fuel

  abbrev pub push_front : RispExp F → Parsed (RispExps F) → Parsed (RispExps F)
  push_front e (ok es rest) = ok (exps_cons e es) rest
  push_front e (err x) = err x
  push_front e panic = panic
  push_front e out_of_fuel = out_of_fuel

  abbrev pub and_then :
      Parsed (RispExp F) → (List Token → Parsed (RispExps F)) → Parsed (RispExps F)
  and_then (ok e rest) k = push_front e (k rest)
  and_then (err x) k = err x
  and_then panic k = panic
  and_then out_of_fuel k = out_of_fuel

  -- Over fuel: two rounds for each token.
  unfoldable mutual
    unfolding parse_atom

    pub parse : ℕ → List Token → Parsed (RispExp F)
    parse zero tokens = out_of_fuel
    parse (suc f) [] = err no_token
    parse (suc f) (token ∷ rest) =
        let seq = as_list (read_seq f rest) in
        if same_bytes token open_paren
        then seq
        else if same_bytes token close_paren
        then err unexpected_close
        else atom token rest

    pub read_seq : ℕ → List Token → Parsed (RispExps F)
    read_seq zero xs = out_of_fuel
    read_seq (suc f) [] = err no_close
    read_seq (suc f) (next_token ∷ rest) =
        let more = and_then (parse f (next_token ∷ rest)) (read_seq f) in
        if same_bytes next_token close_paren then ok exps_nil rest else more
