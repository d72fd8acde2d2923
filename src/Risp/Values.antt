-- ===== src/Risp/Values.antt =====
-- Numbers and map keys among the expressions (src/parser.rs). Floats and their casts to and from
-- 64-bit integers are parameters; `none` is an `Err`.
use sil_os.Prelude.{Bool, true, ◌&&◌, Option, none, some, List, [], ◌∷◌, ℤ}
use sil_os.Risp.{RispExp, RispKey, string_key, number_key, bool_key, bool, number, string}

module _ {F : Type 0} where
  unfoldable pub parse_single_float : RispExp F → Option F
  parse_single_float (number num) = some num
  parse_single_float _ = none

  -- `collect` stops at the first expression that is no number.
  unfoldable pub parse_list_of_floats : List (RispExp F) → Option (List F)
  unfolding parse_single_float
  parse_list_of_floats [] = some []
  parse_list_of_floats (x ∷ args) = elim (parse_single_float x) [
    | none ↦ none
    | some num ↦ elim (parse_list_of_floats args) [ none ↦ none | some nums ↦ some (num ∷ nums) ]
  ]

  unfoldable pub exp_to_key : (F → ℤ) → RispExp F → Option RispKey
  exp_to_key as_i64 (string s) = some (string_key s)
  exp_to_key as_i64 (number n) = some (number_key (as_i64 n))
  exp_to_key as_i64 (bool b) = some (bool_key b)
  exp_to_key as_i64 _ = none

  unfoldable pub key_to_exp : (ℤ → F) → RispKey → RispExp F
  key_to_exp as_f64 (string_key s) = string s
  key_to_exp as_f64 (number_key n) = number (as_f64 n)
  key_to_exp as_f64 (bool_key b) = bool b

  -- The inner function of `ensure_tonicity!`.
  unfoldable pub is_tonic : (F → F → Bool) → F → List F → Bool
  is_tonic check_fn prev [] = true
  is_tonic check_fn prev (x ∷ xs) = check_fn prev x && is_tonic check_fn x xs

  unfoldable pub ensure_tonicity : (F → F → Bool) → List (RispExp F) → Option (RispExp F)
  unfolding parse_list_of_floats is_tonic
  ensure_tonicity check_fn args = elim (parse_list_of_floats args) [
    | none ↦ none
    | some floats ↦ elim floats [
      | [] ↦ none
      | first ∷ rest ↦ some (bool (is_tonic check_fn first rest))
    ]
  ]
