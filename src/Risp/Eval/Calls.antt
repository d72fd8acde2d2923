-- ===== src/Risp/Eval/Calls.antt =====
-- Symbols, calls, `sys` and `error` (src/parser.rs: `eval`, `env_for_lambda`,
-- `parse_list_of_symbol_strings`).
use sil_os.Prelude.{
  ℕ, Option, none, some, List, [], ◌∷◌, ◌++◌, ◌==◌, if◌then◌else◌, length, codes, show_nat,
  is_empty,
}
use sil_os.Risp.{
  Token, RispExp, RispExps, RispEnv, bool, symbol, number, string, list, map, func, lambda, syscall,
  exps_nil, exps_cons,
}
use sil_os.Risp.Env.{env_get, env_insert, env_merge, to_list}
use sil_os.Risp.System.{
  Floats, System, CmdResult, success, process_error, lookup_error, cmd_panics, cmd_runs_on,
}
use sil_os.Risp.Display.{display, show_bool}
use sil_os.Risp.Builtins.{Result, ok, err, apply_builtin}
use sil_os.Risp.Eval.Action.{
  M, Outcome, done, failed, panics, runs_on, pure, fail, or_fail, lift, get_env, within, ignore,
  ◌>>=◌, ◌>>◌, get_arg,
}

abbrev pub cons_ok : Token → Result (List Token) → Result (List Token)
cons_ok k (ok ks) = ok (k ∷ ks)
cons_ok k (err e) = err e

module _ {F : Type 0} where
  -- `parse_list_of_symbol_strings`
  abbrev pub symbol_of : RispExp F → Result Token
  symbol_of (symbol s) = ok s
  symbol_of _ = err (codes "expected symbols in the argument list")

  unfoldable pub symbols_of : RispExps F → Result (List Token)
  symbols_of exps_nil = ok []
  symbols_of (exps_cons e es) = elim (symbol_of e) [
    | ok k ↦ cons_ok k (symbols_of es)
    | err reason ↦ err reason
  ]

  abbrev pub parse_list_of_symbol_strings : RispExp F → Result (List Token)
  parse_list_of_symbol_strings (list l) = symbols_of l
  parse_list_of_symbol_strings _ = err (codes "expected args form to be a list")

  -- `for (k, v) in ks.iter().zip(evaluated_args.iter())`
  unfoldable pub bind_args : List Token → List (RispExp F) → RispEnv F → RispEnv F
  bind_args (k ∷ ks) (v ∷ vs) env = bind_args ks vs (env_insert k v env)
  bind_args [] vs env = env
  bind_args (k ∷ ks) [] env = env

  unfoldable pub env_for_lambda : RispExp F → List (RispExp F) → RispEnv F → Result (RispEnv F)
  unfolding symbols_of bind_args
  env_for_lambda params evaluated_args outer_env = elim (parse_list_of_symbol_strings params) [
    | err e ↦ err e
    | ok ks ↦
        if length ks == length evaluated_args
        then ok (bind_args ks evaluated_args outer_env)
        else err (
            codes "expected "
            ++ (show_nat (length ks)
                ++ (codes " arguments, got " ++ show_nat (length evaluated_args))))
  ]

module _ {F W : Type 0} (fl : Floats F) (sys : System W) (rec : RispExp F → M F W (RispExp F)) where
  unfoldable pub lookup_symbol : Token → M F W (RispExp F)
  unfolding env_get
  lookup_symbol k = do
    env ← get_env
    or_fail (env_get k env) (codes "unexpected symbol k='" ++ (k ++ codes "'"))

  -- `for arg in arg_forms { evaluated_args.push(eval(arg, env).await?); }`
  unfoldable pub eval_args : RispExps F → M F W (List (RispExp F))
  eval_args exps_nil = pure []
  eval_args (exps_cons arg args) = do v ← rec arg; vs ← eval_args args; pure (v ∷ vs)

  abbrev pub cmd_word : RispExp F → Result (List ℕ)
  cmd_word (symbol s) = ok s
  cmd_word (number n) = ok (fl.show n)
  cmd_word (bool b) = ok (show_bool b)
  cmd_word (string s) = ok s
  cmd_word (list l) = ok (display fl (list l))
  cmd_word (map m) = ok (display fl (map m))
  cmd_word _ =
      err (codes "sys args must evaluate to symbols, numbers, bools, strings, lists, or maps")

  unfoldable pub cmd_words : List (RispExp F) → M F W (List Token)
  cmd_words [] = pure []
  cmd_words (arg ∷ args) = do
    word ← lift (cmd_word arg)
    words ← cmd_words args
    pure (word ∷ words)

  abbrev pub success_printed : List Token → RispEnv F → Option W → Outcome F W (RispExp F)
  success_printed cmd env none = panics
  success_printed cmd env (some w) = done (syscall cmd) (record { env = env; world = w })

  -- What comes of the command that `sys` ran.
  abbrev pub after_command : List Token → RispEnv F → CmdResult W → Outcome F W (RispExp F)
  after_command cmd env (success code print_code w) =
      success_printed cmd env (if print_code then sys.println code w else some w)
  after_command cmd env (process_error code w) =
      failed (codes "Syscall failed: " ++ code) (record { env = env; world = w })
  after_command cmd env (lookup_error code w) =
      failed (codes "Command lookup failed: " ++ code) (record { env = env; world = w })
  after_command cmd env cmd_panics = panics
  after_command cmd env cmd_runs_on = runs_on

  abbrev pub run_command : List Token → M F W (RispExp F)
  run_command cmd s = after_command cmd s.env (sys.run_cmd cmd s.world)

  unfoldable pub eval_sys : RispExps F → M F W (RispExp F)
  unfolding eval_args cmd_words
  eval_sys args =
      if is_empty (to_list args) then fail (codes "sys expects at least one argument") else do
        evaluated_args ← eval_args args
        cmd_vec ← cmd_words evaluated_args
        run_command cmd_vec

  -- A lambda's body in its environment: the caller's, with the captured one over it and the
  -- arguments over both.
  unfoldable pub call_lambda :
      RispExp F → RispExp F → RispEnv F → List (RispExp F) → M F W (RispExp F)
  unfolding env_for_lambda env_merge
  call_lambda params_exp body_exp captured_env evaluated_args = do
    env ← get_env
    new_env ← lift (env_for_lambda params_exp evaluated_args (env_merge captured_env env))
    within new_env (rec body_exp)

  unfoldable pub call_value : RispExps F → RispExp F → M F W (RispExp F)
  unfolding call_lambda eval_args apply_builtin
  call_value args (func f) = eval_args args >>= λ vs. lift (apply_builtin fl f vs)
  call_value args (lambda params body env) = eval_args args >>= call_lambda params body env
  call_value args _ = fail (codes "first form must be a function")

  unfoldable pub call : RispExp F → RispExps F → M F W (RispExp F)
  unfolding call_value
  call first_form args = rec first_form >>= call_value args

  -- The handler that `error` names, of which only the effects on the world stay.
  unfoldable pub handle_error : RispExp F → Option (RispExp F) → M F W (Unit {0})
  unfolding call_lambda
  handle_error msg (some (lambda params body env)) = ignore (call_lambda params body env (msg ∷ []))
  handle_error msg _ = pure tt

  abbrev pub error_text : RispExp F → List ℕ
  error_text (string s) = s
  error_text e = display fl e

  unfoldable pub eval_error : RispExps F → M F W (RispExp F)
  unfolding handle_error
  eval_error args = do
    msg_form ← get_arg 0 (codes "error requires a message") args
    evaled_msg ← rec msg_form
    env ← get_env
    handle_error evaled_msg (env_get (codes "error") env)
    fail (error_text evaled_msg)
