-- ===== src/Risp/Builtins.antt =====
-- The functions of the default environment (src/parser.rs: `default_env`).
use Prim.Native.Nat.{bit_and}
use sil_os.Prelude.{
  ℕ, ◌+◌, ◌-◌, ◌%◌, ◌^◌, Bool, not, Option, none, some, List, [], ◌∷◌, ◌==◌, ltb, if◌then◌else◌,
  length, get_elem?, codes, ℤ, pos, negsuc, ◌+ℤ◌,
}
use sil_os.Risp.{
  Token, RispExp, RispMap, RispEnv, RispKey, Builtin, add_fn, sub_fn, eq_fn, ne_fn, gt_fn, ge_fn,
  lt_fn, le_fn, mul_fn, div_fn, and_fn, list_fn, len_fn, index_fn, map_fn, mkeys_fn, number, string,
  list, map, func, exps_nil, map_nil, env_nil,
}
use sil_os.Risp.Values.{
  parse_single_float, parse_list_of_floats, exp_to_key, key_to_exp, ensure_tonicity,
}
use sil_os.Risp.Env.{to_list, of_list, env_insert, map_get, map_insert, map_keys}
use sil_os.Risp.System.{Floats}

-- `Result<_, RispErr>`
pub data Result (A : Type 0) : Type 0 where
  ok : A → Result A
  err : List ℕ → Result A

abbrev pub or_err : {A : Type 0} → Option A → List ℕ → Result A
or_err none e = err e
or_err (some a) e = ok a

infixl 5 ◌>>=◌
abbrev pub ◌>>=◌ : {A B : Type 0} → Result A → (A → Result B) → Result B
ok a >>= k = k a
err e >>= k = err e

-- `i64` as a bit pattern of 64 bits, and back.
abbrev pub to_u64 : ℤ → ℕ
to_u64 (pos n) = n % 2 ^ 64
to_u64 (negsuc n) = 2 ^ 64 - 1 - n % 2 ^ 64

abbrev pub of_u64 : ℕ → ℤ
of_u64 w = if ltb w (2 ^ 63) then pos w else negsuc (2 ^ 64 - 1 - w)

abbrev pub and_i64 : ℤ → ℤ → ℤ
and_i64 a b = of_u64 (bit_and (to_u64 a) (to_u64 b))

-- `str::len`, in bytes of UTF-8.
abbrev pub byte_length : List ℕ → ℕ
byte_length [] = 0
byte_length (c ∷ s) =
    (if ltb c 0x80 then 1 else if ltb c 0x800 then 2 else if ltb c 0x10000 then 3 else 4)
    + byte_length s

-- The element of an index that may count from the end.
abbrev pub wrap_index : ℕ → ℤ → ℤ
wrap_index len (pos n) = pos n
wrap_index len (negsuc n) = pos len +ℤ negsuc n

abbrev pub index_of : ℤ → Option ℕ
index_of (pos n) = some n
index_of (negsuc n) = none

module _ {F : Type 0} (fl : Floats F) where
  abbrev pub floats_of : List (RispExp F) → Result (List F)
  floats_of args = or_err (parse_list_of_floats args) (codes "expected a number")

  abbrev pub fold : (F → F → F) → F → List F → F
  fold f acc [] = acc
  fold f acc (x ∷ xs) = fold f (f acc x) xs

  -- `floats.first().ok_or(..)`, with the rest.
  abbrev pub first_of : List F → Result (F × List F)
  first_of [] = err (codes "expected at least one number")
  first_of (x ∷ xs) = ok (x, xs)

  unfoldable pub tonic : (F → F → Bool) → List (RispExp F) → Result (RispExp F)
  unfolding ensure_tonicity
  tonic check_fn args = do
    floats ← floats_of args
    _ ← first_of floats
    or_err (ensure_tonicity check_fn args) (codes "expected at least one number")

  unfoldable pub index_list : List (RispExp F) → ℤ → Result (RispExp F)
  index_list l idx = elim (index_of (wrap_index (length l) idx)) [
    | none ↦ err (codes "index out of bounds")
    | some i ↦ or_err (get_elem? l i) (codes "index out of bounds")
  ]

  abbrev pub or_empty : Option (RispExp F) → RispExp F
  or_empty none = string []
  or_empty (some v) = v

  abbrev pub key_of : RispExp F → Result RispKey
  key_of e =
      or_err (exp_to_key fl.as_i64 e) (codes "only strings, numbers, and bools can be map keys")

  unfoldable pub index : RispExp F → RispExp F → Result (RispExp F)
  unfolding index_list
  index (list l) index_exp = do
    idx_f ← or_err (parse_single_float index_exp) (codes "expected a number")
    index_list (to_list l) (fl.as_i64 idx_f)
  index (map m) index_exp = do key ← key_of index_exp; ok (or_empty (map_get key m))
  index _ index_exp = err (codes "!! only works on lists, strings, and maps")

  -- `while i < args.len()`, on an even number of arguments.
  unfoldable pub collect_map : List (RispExp F) → RispMap F → Result (RispMap F)
  collect_map [] m = ok m
  collect_map (k ∷ []) m = ok m
  collect_map (k ∷ v ∷ args) m = key_of k >>= λ key. collect_map args (map_insert key v m)

  abbrev pub keys_of : List RispKey → List (RispExp F)
  keys_of [] = []
  keys_of (k ∷ ks) = key_to_exp fl.as_f64 k ∷ keys_of ks

  abbrev pub fold_and : ℤ → List F → ℤ
  fold_and acc [] = acc
  fold_and acc (x ∷ xs) = fold_and (and_i64 acc (fl.as_i64 x)) xs

  unfoldable pub len_of : List (RispExp F) → Result (RispExp F)
  len_of [] = err (codes "len requires 1 argument")
  len_of (list l ∷ args) = ok (number (fl.as_f64 (pos (length (to_list l)))))
  len_of (string s ∷ args) = ok (number (fl.as_f64 (pos (byte_length s))))
  len_of (_ ∷ args) = err (codes "len only works on lists and strings")

  unfoldable pub index_args : List (RispExp F) → Result (RispExp F)
  unfolding index
  index_args (collection ∷ index_exp ∷ []) = index collection index_exp
  index_args _ = err (codes "!! requires exactly 2 arguments")

  unfoldable pub keys_args : List (RispExp F) → Result (RispExp F)
  keys_args [] = err (codes "mkeys requires 1 argument")
  keys_args (map m ∷ args) = ok (list (of_list (keys_of (map_keys m))))
  keys_args (_ ∷ args) = err (codes "mkeys only works on maps")

  unfoldable pub map_args : List (RispExp F) → Result (RispExp F)
  unfolding collect_map
  map_args args =
      if length args % 2 == 0
      then (collect_map args map_nil >>= λ m. ok (map m))
      else err (codes "map requires an even number of arguments")

  unfoldable pub apply_builtin : Builtin → List (RispExp F) → Result (RispExp F)
  unfolding tonic len_of index_args keys_args map_args
  apply_builtin add_fn args = do floats ← floats_of args; ok (number (fold fl.add fl.zero_f floats))
  apply_builtin sub_fn args = do
    floats ← floats_of args
    (first, rest) ← first_of floats
    ok (number (fl.sub first (fold fl.add fl.zero_f rest)))
  apply_builtin eq_fn args = tonic fl.eq args
  apply_builtin ne_fn args = tonic (λ a b. not (fl.eq a b)) args
  apply_builtin gt_fn args = tonic (λ a b. fl.lt b a) args
  apply_builtin ge_fn args = tonic (λ a b. fl.le b a) args
  apply_builtin lt_fn args = tonic fl.lt args
  apply_builtin le_fn args = tonic fl.le args
  apply_builtin mul_fn args = do floats ← floats_of args; ok (number (fold fl.mul fl.one_f floats))
  apply_builtin div_fn args = do
    floats ← floats_of args
    (first, rest) ← first_of floats
    ok (number (fold fl.div first rest))
  apply_builtin and_fn args = do
    floats ← floats_of args
    (first, rest) ← first_of floats
    ok (number (fl.as_f64 (fold_and (fl.as_i64 first) rest)))
  apply_builtin list_fn args = ok (list (of_list args))
  apply_builtin len_fn args = len_of args
  apply_builtin index_fn args = index_args args
  apply_builtin map_fn args = map_args args
  apply_builtin mkeys_fn args = keys_args args

  -- `default_env`, in the order of its insertions.
  abbrev pub names : List (Token × RispExp F)
  names =
      (codes "+", func add_fn)
      ∷ (codes "-", func sub_fn)
      ∷ (codes "=", func eq_fn)
      ∷ (codes "!=", func ne_fn)
      ∷ (codes ">", func gt_fn)
      ∷ (codes ">=", func ge_fn)
      ∷ (codes "<", func lt_fn)
      ∷ (codes "<=", func le_fn)
      ∷ (codes "*", func mul_fn)
      ∷ (codes "/", func div_fn)
      ∷ (codes "&", func and_fn)
      ∷ (codes "list", func list_fn)
      ∷ (codes "[]", list exps_nil)
      ∷ (codes "len", func len_fn)
      ∷ (codes "!!", func index_fn)
      ∷ (codes "map", func map_fn)
      ∷ (codes "mkeys", func mkeys_fn)
      ∷ []

  abbrev pub insert_all : List (Token × RispExp F) → RispEnv F → RispEnv F
  insert_all [] env = env
  insert_all ((k, v) ∷ rest) env = insert_all rest (env_insert k v env)

  unfoldable pub default_env : RispEnv F
  unfolding env_insert
  default_env = insert_all names env_nil
