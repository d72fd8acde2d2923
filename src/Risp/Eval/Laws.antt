-- ===== src/Risp/Eval/Laws.antt =====
-- What `error` and the call of a lambda leave behind (src/parser.rs: `eval`).
use sil_os.Prelude.{ℕ, suc, ◌≡◌, List, [], ◌∷◌, codes, Option, none, some}
use sil_os.Risp.{
  RispExp, RispExps, RispEnv, bool, symbol, number, string, list, map, func, lambda, syscall,
  exps_cons,
}
use sil_os.Risp.Env.{env_get, env_merge}
use sil_os.Risp.System.{Floats, System}
use sil_os.Risp.Builtins.{Result, ok, err}
use sil_os.Risp.Eval.Action.{
  M, State, Outcome, done, failed, panics, runs_on, after, back_to, dropped, lift,
}
use sil_os.Risp.Eval.Calls.{call_lambda, env_for_lambda, eval_error, handle_error, error_text}
use sil_os.Risp.Eval.{eval, eval_step, eval_form, eval_special}

-- The outcomes of a step that gives no value: an error with this text, in this environment and some
-- world, a panic, or no end within the fuel.
pub data Raises {F W : Type 0} (e : List ℕ) (env : RispEnv F)
    : Outcome F W (RispExp F) → Type 0 where
  raised : (w : W) → Raises e env (failed e (record { env = env; world = w }))
  raised_panic : Raises e env panics
  raised_endless : Raises e env runs_on

-- The outcomes that leave this environment behind.
pub data Keeps {F W A : Type 0} (env : RispEnv F) : Outcome F W A → Type 0 where
  kept : (a : A) (w : W) → Keeps env (done a (record { env = env; world = w }))
  kept_failed : (e : List ℕ) (w : W) → Keeps env (failed e (record { env = env; world = w }))
  kept_panic : Keeps env panics
  kept_endless : Keeps env runs_on

-- The outcomes of a step that cannot fail, likewise.
data Quiet {F W A : Type 0} (env : RispEnv F) : Outcome F W A → Type 0 where
  quiet : (a : A) (w : W) → Quiet env (done a (record { env = env; world = w }))
  quiet_panic : Quiet env panics
  quiet_endless : Quiet env runs_on

module _ {F W : Type 0} where
  back_to-Keeps : {A : Type 0} (env : RispEnv F) (r : Outcome F W A) → Keeps env (back_to env r)
  back_to-Keeps env (done a s) = kept a s.world
  back_to-Keeps env (failed e s) = kept_failed e s.world
  back_to-Keeps env panics = kept_panic
  back_to-Keeps env runs_on = kept_endless

  dropped-Quiet :
      {A : Type 0} (env : RispEnv F) (r : Outcome F W A) → Keeps env r → Quiet env (dropped r)
  dropped-Quiet env r (kept a w) = quiet tt w
  dropped-Quiet env r (kept_failed e w) = quiet tt w
  dropped-Quiet env r kept_panic = quiet_panic
  dropped-Quiet env r kept_endless = quiet_endless

  raised_after :
      {A : Type 0} (env : RispEnv F) (e : List ℕ) (r : Outcome F W A)
      → Quiet env r
      → Raises e env (after r λ _ s. failed e s)
  raised_after env e r (quiet a w) = raised w
  raised_after env e r quiet_panic = raised_panic
  raised_after env e r quiet_endless = raised_endless

module _ {F W : Type 0} (fl : Floats F) (sys : System W) (rec : RispExp F → M F W (RispExp F)) where
  -- A call of a lambda leaves the caller's environment as it was, whether it returns or fails:
  -- what its body defines or changes is not seen outside.
  pub call_lambda-Keeps :
      (params body : RispExp F) (captured : RispEnv F) (args : List (RispExp F)) (s : State F W)
      → Keeps s.env (call_lambda fl sys rec params body captured args s)
  unfolding call_lambda
  call_lambda-Keeps params body captured args s =
      entered (env_for_lambda params args (env_merge captured s.env))
    where
      entered :
          (r : Result (RispEnv F))
          → Keeps s.env (
              after
                (lift r s)
                λ new_env s'. back_to s'.env (rec body (record s' { env = new_env })))
      entered (ok new_env) = back_to-Keeps s.env _
      entered (err e) = kept_failed e s.world

  handle_error-Quiet :
      (v : RispExp F) (o : Option (RispExp F)) (s : State F W)
      → Quiet s.env (handle_error fl sys rec v o s)
  unfolding handle_error
  handle_error-Quiet v none s = quiet tt s.world
  handle_error-Quiet v (some (lambda p b e)) s =
      dropped-Quiet _ _ (call_lambda-Keeps p b e (v ∷ []) s)
  handle_error-Quiet v (some (bool x)) s = quiet tt s.world
  handle_error-Quiet v (some (symbol x)) s = quiet tt s.world
  handle_error-Quiet v (some (number x)) s = quiet tt s.world
  handle_error-Quiet v (some (string x)) s = quiet tt s.world
  handle_error-Quiet v (some (list x)) s = quiet tt s.world
  handle_error-Quiet v (some (map x)) s = quiet tt s.world
  handle_error-Quiet v (some (func x)) s = quiet tt s.world
  handle_error-Quiet v (some (syscall x)) s = quiet tt s.world

  -- The message's value, once there, is raised.
  raise_value :
      (m : RispExp F) (rest : RispExps F) (s : State F W) (v : RispExp F) (s' : State F W)
      → rec m s ≡ done v s'
      → Raises (error_text fl sys rec v) s'.env (eval_error fl sys rec (exps_cons m rest) s)
  unfolding eval_error
  raise_value m rest s v s' e =
      rw e (raised_after s'.env _ _ (handle_error-Quiet v (env_get (codes "error") s'.env) s'))

-- The form `error`, with a message that evaluates to a value, never gives a value itself: it
-- fails with that value's text, or panics or runs on with the handler. Where it fails, the
-- environment is the one that the message's evaluation left, whatever the handler did.
pub error-Raises :
    {F W : Type 0} (fl : Floats F) (sys : System W) (f : ℕ) (m : RispExp F) (rest : RispExps F)
    (s : State F W) (v : RispExp F) (s' : State F W)
    → eval fl sys f m s ≡ done v s'
    → Raises
        (error_text fl sys (eval fl sys f) v)
        s'.env
        (eval fl sys (suc f) (list (exps_cons (symbol (codes "error")) (exps_cons m rest))) s)
unfolding eval eval_step eval_form eval_special
error-Raises fl sys f m rest s v s' e = raise_value fl sys (eval fl sys f) m rest s v s' e
