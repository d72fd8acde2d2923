-- ===== src/Risp/Eval/Forms.antt =====
-- The special forms of control: `if`, `def`, `fn`, `quote`, `and`, `or`, `for`, `do`
-- (src/parser.rs: `eval`, `eval_lambda_args`).
use sil_os.Prelude.{ℕ, zero, suc, true, false, ◌++◌, if◌then◌else◌, codes}
use sil_os.Risp.{RispExp, RispExps, bool, list, lambda, exps_nil, exps_cons}
use sil_os.Risp.Env.{env_insert}
use sil_os.Risp.System.{Floats}
use sil_os.Risp.Display.{display}
use sil_os.Risp.Eval.Action.{
  M, pure, fail, out_of_rounds, get_env, ◌>>=◌, ◌>>◌, get_arg, symbol_name, at_most_two, bind_name,
}

module _ {F W : Type 0} (fl : Floats F) (rec : RispExp F → M F W (RispExp F)) where
  -- `if`
  unfoldable pub take_branch : RispExp F → RispExps F → RispExp F → M F W (RispExp F)
  take_branch test_form args (bool b) = do
    res_form ←
        get_arg (if b then 1 else 2)
          (if b then codes "expected form idx=1" else codes "expected form idx=2") args
    rec res_form
  take_branch test_form args _ =
      fail (codes "unexpected test form='" ++ (display fl test_form ++ codes "'"))

  unfoldable pub eval_if : RispExps F → M F W (RispExp F)
  unfolding take_branch
  eval_if args = do
    test_form ← get_arg 0 (codes "expected test form") args
    test_eval ← rec test_form
    take_branch test_form args test_eval

  unfoldable pub eval_def : RispExps F → M F W (RispExp F)
  unfolding env_insert
  eval_def args = do
    first_form ← get_arg 0 (codes "expected first form") args
    first_str ← symbol_name (codes "expected first form to be a symbol") first_form
    second_form ← get_arg 1 (codes "expected second form") args
    at_most_two (codes "def can only have two forms ") args
    second_eval ← rec second_form
    bind_name first_str second_eval
    pure first_form

  unfoldable pub eval_fn : RispExps F → M F W (RispExp F)
  eval_fn args = do
    env ← get_env
    params_exp ← get_arg 0 (codes "expected args form") args
    body_exp ← get_arg 1 (codes "expected second form") args
    at_most_two (codes "fn definition can only have two forms ") args
    pure (lambda params_exp body_exp env)

  unfoldable pub eval_quote : RispExps F → M F W (RispExp F)
  eval_quote args = get_arg 0 (codes "expected form to quote") args

  -- The rest of the arguments, where the first of them does not decide.
  abbrev pub and_rest : M F W (RispExp F) → RispExp F → M F W (RispExp F)
  and_rest more (bool true) = more
  and_rest more (bool false) = pure (bool false)
  and_rest more _ = fail (codes "and expects booleans")

  unfoldable pub eval_and : RispExps F → M F W (RispExp F)
  eval_and exps_nil = pure (bool true)
  eval_and (exps_cons arg args) = rec arg >>= and_rest (eval_and args)

  abbrev pub or_rest : M F W (RispExp F) → RispExp F → M F W (RispExp F)
  or_rest more (bool true) = pure (bool true)
  or_rest more (bool false) = more
  or_rest more _ = fail (codes "or expects booleans")

  unfoldable pub eval_or : RispExps F → M F W (RispExp F)
  eval_or exps_nil = pure (bool false)
  eval_or (exps_cons arg args) = rec arg >>= or_rest (eval_or args)

  -- A round of the loop of `for`, before the rounds `more`.
  abbrev pub for_round : RispExp F → M F W (RispExp F) → RispExp F → M F W (RispExp F)
  for_round body more (bool true) = rec body >> more
  for_round body more (bool false) = pure (bool false)
  for_round body more _ = fail (codes "loop condition must be boolean")

  unfoldable pub for_loop : ℕ → RispExp F → RispExp F → M F W (RispExp F)
  for_loop zero condition body = out_of_rounds
  for_loop (suc n) condition body = rec condition >>= for_round body (for_loop n condition body)

  unfoldable pub eval_for : ℕ → RispExps F → M F W (RispExp F)
  unfolding for_loop
  eval_for rounds args = do
    condition ← get_arg 0 (codes "expected loop condition") args
    body ← get_arg 1 (codes "expected loop body") args
    for_loop rounds condition body

  -- `last_result` after the forms.
  unfoldable pub do_from : RispExp F → RispExps F → M F W (RispExp F)
  do_from last_result exps_nil = pure last_result
  do_from last_result (exps_cons form forms) = rec form >>= λ v. do_from v forms

  unfoldable pub eval_do : RispExps F → M F W (RispExp F)
  unfolding do_from
  eval_do args = do_from (list exps_nil) args
