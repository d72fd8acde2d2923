-- ===== src/Risp/Eval/Action.antt =====
-- The monad of the evaluator: an environment that is passed by reference, and the world outside. What
-- was changed before an error stays changed.
use sil_os.Prelude.{ℕ, Option, none, some, List, ◌++◌, ltb, if◌then◌else◌, length, get_elem?, codes}
use sil_os.Risp.{Token, RispExp, RispExps, RispMap, RispEnv, symbol, list, map}
use sil_os.Risp.Env.{env_get, env_insert, to_list}
use sil_os.Risp.Builtins.{Result, ok, err}

pub record State (F W : Type 0) : Type 0 where
  pub env : RispEnv F
  pub world : W

-- `Ok`, `Err` with its reason, a panic, or no end within the fuel.
pub data Outcome (F W A : Type 0) : Type 0 where
  done : A → State F W → Outcome F W A
  failed : List ℕ → State F W → Outcome F W A
  panics : Outcome F W A
  runs_on : Outcome F W A

abbrev pub M : Type 0 → Type 0 → Type 0 → Type 0
M F W A = State F W → Outcome F W A

module _ {F W : Type 0} where
  abbrev pub pure : {A : Type 0} → A → M F W A
  pure a s = done a s

  abbrev pub fail : {A : Type 0} → List ℕ → M F W A
  fail e s = failed e s

  abbrev pub out_of_rounds : {A : Type 0} → M F W A
  out_of_rounds s = runs_on

  -- What comes after a step, by its outcome.
  abbrev pub after : {A B : Type 0} → Outcome F W A → (A → M F W B) → Outcome F W B
  after (done a s) k = k a s
  after (failed e s) k = failed e s
  after panics k = panics
  after runs_on k = runs_on

  abbrev pub or_fail : {A : Type 0} → Option A → List ℕ → M F W A
  or_fail none e = fail e
  or_fail (some a) e = pure a

  abbrev pub lift : {A : Type 0} → Result A → M F W A
  lift (ok a) = pure a
  lift (err e) = fail e

  abbrev pub get_env : M F W (RispEnv F)
  get_env s = done s.env s

  abbrev pub set_env : RispEnv F → M F W (Unit {0})
  set_env env s = done tt (record s { env = env })

  -- The outer environment is back once a step in another one is over.
  abbrev pub back_to : {A : Type 0} → RispEnv F → Outcome F W A → Outcome F W A
  back_to env (done a s) = done a (record s { env = env })
  back_to env (failed e s) = failed e (record s { env = env })
  back_to env panics = panics
  back_to env runs_on = runs_on

  -- A step in an environment of its own.
  abbrev pub within : {A : Type 0} → RispEnv F → M F W A → M F W A
  within env m s = back_to s.env (m (record s { env = env }))

  -- `let _ = ..`: the value or the error of a step is dropped.
  abbrev pub dropped : {A : Type 0} → Outcome F W A → Outcome F W (Unit {0})
  dropped (done a s) = done tt s
  dropped (failed e s) = done tt s
  dropped panics = panics
  dropped runs_on = runs_on

  abbrev pub ignore : {A : Type 0} → M F W A → M F W (Unit {0})
  ignore m s = dropped (m s)

infixl 5 ◌>>=◌ ◌>>◌
abbrev pub ◌>>=◌ : {F W A B : Type 0} → M F W A → (A → M F W B) → M F W B
◌>>=◌ m k s = after (m s) k

abbrev pub ◌>>◌ : {F W A B : Type 0} → M F W A → M F W B → M F W B
m >> k = m >>= λ _. k

-- What the special forms have in common.
module _ {F W : Type 0} where
  -- `arg_forms.get(i).ok_or(..)`
  abbrev pub get_arg : ℕ → List ℕ → RispExps F → M F W (RispExp F)
  get_arg i reason args = or_fail (get_elem? (to_list args) i) reason

  -- `RispExp::Symbol(s) => s.clone(), _ => return Err(..)`
  abbrev pub symbol_name : List ℕ → RispExp F → M F W Token
  symbol_name reason (symbol s) = pure s
  symbol_name reason _ = fail reason

  abbrev pub at_most_two : List ℕ → RispExps F → M F W (Unit {0})
  at_most_two reason args = if ltb 2 (length (to_list args)) then fail reason else pure tt

  -- `env.data.insert(..)`
  abbrev pub bind_name : Token → RispExp F → M F W (Unit {0})
  bind_name k v = do env ← get_env; set_env (env_insert k v env)

  -- The list that a variable holds.
  abbrev pub list_value : Token → Option (RispExp F) → M F W (RispExps F)
  list_value k (some (list l)) = pure l
  list_value k (some _) = fail (codes "'" ++ (k ++ codes "' is not a list"))
  list_value k none = fail (codes "undefined variable '" ++ (k ++ codes "'"))

  unfoldable pub get_list : Token → M F W (RispExps F)
  get_list k = get_env >>= λ env. list_value k (env_get k env)

  -- The map that a variable holds.
  abbrev pub map_value : Token → Option (RispExp F) → M F W (RispMap F)
  map_value k (some (map m)) = pure m
  map_value k (some _) = fail (codes "'" ++ (k ++ codes "' is not a map"))
  map_value k none = fail (codes "undefined variable '" ++ (k ++ codes "'"))

  unfoldable pub get_map : Token → M F W (RispMap F)
  get_map k = get_env >>= λ env. map_value k (env_get k env)
