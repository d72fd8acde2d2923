-- ===== src/Tests/Lisp.antt =====
-- The evaluator at concrete inputs (src/parser.rs).
use sil_os.Prelude.{some, ℕ, ◌≡◌, ◌≢◌, refl, true, List, [], ◌∷◌, codes, negsuc}
use sil_os.Risp.{
  Token, RispExp, symbol, env_cons, number, string, list, exps_nil, exps_cons, env_nil,
}
use sil_os.Risp.{map, map_nil, string_key}
use sil_os.Risp.Env.{env_get, map_insert}
use sil_os.Risp.Values.{exp_to_key}
use sil_os.Risp.Keys.{behind, eval_mset-index}
use sil_os.Risp.Builtins.{ok, index}
use sil_os.Risp.Eval.Variables.{eval_mset}
use sil_os.Risp.Bounds.{is_ok, index_list-in_range}
use sil_os.Risp.Builtins.{index_list}
use sil_os.Risp.Eval.Action.{State, done}
use sil_os.Risp.Eval.Calls.{call_lambda}
use sil_os.Risp.Eval.Laws.{Raises, Keeps, error-Raises, call_lambda-Keeps}
use sil_os.Risp.Eval.{eval}
use sil_os.Tests.Scripts.{nat_floats, echo_system}

abbrev start : State ℕ (List (List Token))
start = record { env = env_nil; world = [] }

error-Raises_example : Raises (codes "boom") env_nil (
    eval nat_floats echo_system 4
      (list (exps_cons (symbol (codes "error")) (exps_cons (string (codes "boom")) exps_nil)))
      start)
unfolding eval
error-Raises_example =
    error-Raises nat_floats echo_system 3 (string (codes "boom")) exps_nil start
      (string (codes "boom")) start refl

-- `(def y x)`, as the body of a lambda over `x`.
abbrev body : RispExp ℕ
body = list (
    exps_cons (symbol (codes "def"))
      (exps_cons (symbol (codes "y")) (exps_cons (symbol (codes "x")) exps_nil)))

call_lambda-Keeps_example : Keeps env_nil (
    call_lambda nat_floats echo_system
      (eval nat_floats echo_system 5)
      (list (exps_cons (symbol (codes "x")) exps_nil))
      body
      env_nil
      (number 1 ∷ [])
      start)
call_lambda-Keeps_example =
    call_lambda-Keeps nat_floats echo_system (eval nat_floats echo_system 5)
      (list (exps_cons (symbol (codes "x")) exps_nil)) body env_nil (number 1 ∷ []) start

-- The last element but one of two.
index_list-in_range_example :
    is_ok (index_list nat_floats (number 4 ∷ number 5 ∷ []) (negsuc 1)) ≡ true
index_list-in_range_example = index_list-in_range nat_floats (number 4 ∷ number 5 ∷ []) (negsuc 1)

-- `m` is an empty map.
abbrev with_map : State ℕ (List (List Token))
with_map = record { env = env_cons (codes "m") (map map_nil) env_nil; world = [] }

abbrev word_a : RispExp ℕ
word_a = string (codes "a")

abbrev no_word : RispExp ℕ
no_word = string []

no_word-a : string_key [] ≢ string_key (codes "a")
no_word-a e = cc

abbrev after_mset : State ℕ (List (List Token))
after_mset =
    behind nat_floats (eval nat_floats echo_system 2) (codes "m") word_a (number 3) with_map
      with_map with_map word_a (number 3) (string_key (codes "a")) map_nil

eval_mset-index_example :
    (eval_mset nat_floats
        (eval nat_floats echo_system 2)
        (exps_cons (symbol (codes "m")) (exps_cons word_a (exps_cons (number 3) exps_nil)))
        with_map
      ≡ done (number 3) after_mset)
    × (env_get (codes "m") after_mset.env
        ≡ some (map (map_insert (string_key (codes "a")) (number 3) map_nil)))
    × (index nat_floats (map (map_insert (string_key (codes "a")) (number 3) map_nil)) word_a
        ≡ ok (number 3))
    × (index nat_floats (map (map_insert (string_key (codes "a")) (number 3) map_nil)) no_word
        ≡ index nat_floats (map map_nil) no_word)
unfolding eval env_get exp_to_key
eval_mset-index_example =
    eval_mset-index nat_floats (eval nat_floats echo_system 2) (codes "m") word_a (number 3)
      with_map with_map with_map word_a (number 3) (string_key (codes "a")) map_nil refl refl refl
      refl no_word (string_key []) refl no_word-a
