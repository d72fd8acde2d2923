-- ===== src/Risp/Eval.antt =====
-- The evaluator (src/parser.rs: `eval`, `env_for_lambda`, `parse_list_of_symbol_strings`,
-- `eval_lambda_args`). Each special form is a function of its own over `rec`, which stands for the
-- recursive call of `eval`; the environment is part of the state, for it is passed by reference.
pub mod Action
pub mod Laws
pub mod Forms
pub mod Variables
pub mod Calls
use sil_os.Prelude.{ℕ, zero, suc, codes, same_bytes, if◌then◌else◌}
use sil_os.Risp.{
  Token, RispExp, RispExps, RispMap, RispEnv, bool, symbol, number, string, list, map, func, lambda,
  syscall, exps_nil, exps_cons,
}
use sil_os.Risp.System.{Floats, System}
use sil_os.Risp.Eval.Action.{M, pure, fail, out_of_rounds}
use sil_os.Risp.Eval.Forms.{
  eval_if, eval_def, eval_fn, eval_quote, eval_and, eval_or, eval_for, eval_do,
}
use sil_os.Risp.Eval.Variables.{eval_append, eval_pop, eval_mset, eval_mdel}
use sil_os.Risp.Eval.Calls.{lookup_symbol, call, eval_sys, eval_error}

module _ {F W : Type 0} (fl : Floats F) (sys : System W) where
  -- `match s.as_str()`: the special forms by name, else a call. `rounds` bounds the loop of `for`.
  unfoldable pub eval_special :
      ℕ → (RispExp F → M F W (RispExp F)) → Token → RispExps F → M F W (RispExp F)
  eval_special rounds rec s args =
      if same_bytes s (codes "if")
      then eval_if fl rec args
      else if same_bytes s (codes "def")
      then eval_def fl rec args
      else if same_bytes s (codes "fn")
      then eval_fn fl rec args
      else if same_bytes s (codes "sys")
      then eval_sys fl sys rec args
      else if same_bytes s (codes "quote")
      then eval_quote fl rec args
      else if same_bytes s (codes "and")
      then eval_and fl rec args
      else if same_bytes s (codes "or")
      then eval_or fl rec args
      else if same_bytes s (codes "for")
      then eval_for fl rec rounds args
      else if same_bytes s (codes "append")
      then eval_append fl rec args
      else if same_bytes s (codes "pop")
      then eval_pop fl rec args
      else if same_bytes s (codes "mset")
      then eval_mset fl rec args
      else if same_bytes s (codes "mdel")
      then eval_mdel fl rec args
      else if same_bytes s (codes "do")
      then eval_do fl rec args
      else if same_bytes s (codes "error")
      then eval_error fl sys rec args
      else call fl sys rec (symbol s) args

  unfoldable pub eval_form :
      ℕ → (RispExp F → M F W (RispExp F)) → RispExp F → RispExps F → M F W (RispExp F)
  unfolding eval_special
  eval_form rounds rec (symbol s) args = eval_special rounds rec s args
  eval_form rounds rec first_form args = call fl sys rec first_form args

  -- The body of `eval`.
  unfoldable pub eval_step : ℕ → (RispExp F → M F W (RispExp F)) → RispExp F → M F W (RispExp F)
  unfolding eval_form
  eval_step rounds rec (bool b) = pure (bool b)
  eval_step rounds rec (number n) = pure (number n)
  eval_step rounds rec (symbol k) = lookup_symbol fl sys rec k
  eval_step rounds rec (list exps_nil) = fail (codes "expected a non-empty list")
  eval_step rounds rec (list (exps_cons first_form args)) = eval_form rounds rec first_form args
  eval_step rounds rec (func f) = fail (codes "unexpected form")
  eval_step rounds rec (lambda params body env) = fail (codes "unexpected form")
  eval_step rounds rec (syscall cmd) = fail (codes "unexpected form")
  eval_step rounds rec (string s) = pure (string s)
  eval_step rounds rec (map m) = pure (map m)

  -- Over fuel, which is also the bound on the rounds of each `for`.
  unfoldable pub eval : ℕ → RispExp F → M F W (RispExp F)
  unfolding eval_step
  eval zero exp = out_of_rounds
  eval (suc f) exp = eval_step f (eval f) exp
