-- ===== src/Risp/Interpret.antt =====
-- Scripts (src/parser.rs: `parse_eval`, `interpret`).
use sil_os.Prelude.{
  ℕ, ◌+◌, ◌*◌, Bool, true, false, ◌||◌, none, some, List, [], ◌∷◌, ◌++◌, ◌==◌, if◌then◌else◌,
  length, codes, show_nat, same_bytes, is_empty, drop, get_elem?,
}
use sil_os.Risp.{
  Token, RispExp, RispEnv, RispErr, no_token, unexpected_close, no_close, Parsed, ok, err, panic,
  out_of_fuel, tokenize, parse, bool, number, symbol,
}
use sil_os.Risp.Env.{env_insert}
use sil_os.Risp.System.{Floats, System, CmdResult, success, process_error, cmd_panics, cmd_runs_on}
use sil_os.Risp.Builtins.{default_env}
use sil_os.Risp.Eval.Action.{
  M, Outcome, done, failed, panics, runs_on, fail, out_of_rounds, ignore, ◌>>◌,
}
use sil_os.Risp.Eval.{eval}

-- `RispErr::Reason` of the reader.
abbrev pub reason : RispErr → List ℕ
reason no_token = codes "could not get token"
reason unexpected_close = codes "unexpected `)`"
reason no_close = codes "could not find closing `)`"

-- `str::split` at a character: what is before it, and the pieces behind.
abbrev pub push_piece : ℕ → List (List ℕ) → List (List ℕ)
push_piece c [] = (c ∷ []) ∷ []
push_piece c (p ∷ ps) = (c ∷ p) ∷ ps

unfoldable pub split_on : ℕ → List ℕ → List (List ℕ)
split_on sep [] = [] ∷ []
split_on sep (c ∷ s) =
    let rest = split_on sep s in if c == sep then [] ∷ rest else push_piece c rest

-- `Vec::pop`, for its effect.
abbrev pub without_last : List (List ℕ) → List (List ℕ)
without_last [] = []
without_last (p ∷ []) = []
without_last (p ∷ q ∷ ps) = p ∷ without_last (q ∷ ps)

module _ {F W : Type 0} (fl : Floats F) (sys : System W) (is_space : ℕ → Bool) (fuel : ℕ) where
  -- What `eval` makes of what `parse` read.
  abbrev pub eval_parsed : Parsed (RispExp F) → M F W (RispExp F)
  eval_parsed (ok e rest) = eval fl sys fuel e
  eval_parsed (err r) = fail (reason r)
  eval_parsed panic = λ s. panics
  eval_parsed out_of_fuel = out_of_rounds

  -- The reader's own fuel is what `parse` needs at most.
  unfoldable pub parse_eval : List ℕ → M F W (RispExp F)
  unfolding eval tokenize parse
  parse_eval expr =
      let tokens = tokenize is_space expr in
      eval_parsed (parse fl.parse_float (length tokens * 2 + 1) tokens)

  abbrev pub insert_symbols : List Token → RispEnv F → RispEnv F
  insert_symbols [] env = env
  insert_symbols (call ∷ calls) env = insert_symbols calls (env_insert call (symbol call) env)

  -- `for i in 0..2`
  abbrev pub insert_defaults : RispEnv F → RispEnv F
  insert_defaults env = env_insert (codes "b1") (bool false) (
      env_insert (codes "n1") (number fl.zero_f)
        (env_insert (codes "b0") (bool false) (env_insert (codes "n0") (number fl.zero_f) env)))

  abbrev pub is_bool_word : Token → Bool
  is_bool_word arg = same_bytes arg (codes "true") || same_bytes arg (codes "false")

  -- The arguments behind the script, as `b0`, `b1`, .. and `n0`, `n1`, ..
  unfoldable pub insert_args : ℕ → ℕ → List Token → RispEnv F → RispEnv F
  insert_args b_count n_count [] env = env
  insert_args b_count n_count (arg ∷ args) env = elim (is_bool_word arg) [
    | true ↦
        insert_args (b_count + 1) n_count args
          (env_insert (codes "b" ++ show_nat b_count) (bool (same_bytes arg (codes "true"))) env)
    | false ↦ elim (fl.parse_float arg) [
      | some val ↦
          insert_args b_count (n_count + 1) args
            (env_insert (codes "n" ++ show_nat n_count) (number val) env)
      | none ↦ insert_args b_count n_count args env
    ]
  ]

  -- Whether all statements worked, with the message of the last that did not.
  pub record Report : Type 0 where
    pub worked : Bool
    pub error_msg : List ℕ

  -- `match parse_eval(..)`: an error is noted, and the script goes on.
  abbrev pub note : Outcome F W (RispExp F) → Report → (Report → M F W Report) → Outcome F W Report
  note (done v s) r k = k r s
  note (failed msg s) r k = k (record { worked = false; error_msg = msg }) s
  note panics r k = panics
  note runs_on r k = runs_on

  unfoldable pub run_statements : List (List ℕ) → Report → M F W Report
  unfolding parse_eval
  run_statements [] r s = done r s
  run_statements (code ∷ rest) r s = note (parse_eval code s) r (λ r'. run_statements rest r')

  abbrev pub finish_script : Outcome F W Report → CmdResult W
  finish_script (done r s) =
      if r.worked then success (codes "worked") false s.world else process_error r.error_msg s.world
  finish_script (failed e s) = process_error e s.world
  finish_script panics = cmd_panics
  finish_script runs_on = cmd_runs_on

  -- The environment that a script starts in.
  unfoldable pub script_env : List Token → W → RispEnv F
  unfolding insert_args default_env env_insert
  script_env expr w =
      insert_args 0 0 (drop 2 expr)
        (insert_defaults (insert_symbols (sys.get_command_list w) (default_env fl)))

  abbrev pub handler_code : List ℕ
  handler_code = codes "(def error (fn (s) (sys echo s)))"

  -- The statements of a script, of which what stands behind the last semicolon is none.
  abbrev pub statements : List ℕ → List (List ℕ)
  statements binding = without_last (split_on b';' binding)

  unfoldable pub run_script : List ℕ → M F W Report
  unfolding parse_eval run_statements split_on
  run_script binding =
      ignore (parse_eval handler_code)
      >> (if is_empty (statements binding)
          then fail (codes "statements must end with a semicolon")
          else run_statements (statements binding) (record { worked = true; error_msg = [] }))

  unfoldable pub interpret : List Token → W → CmdResult W
  unfolding run_script script_env
  interpret expr w = elim (get_elem? expr 1) [
    | none ↦ process_error (codes "expected at least two params") w
    | some binding ↦
        finish_script (run_script binding (record { env = script_env expr w; world = w }))
  ]
