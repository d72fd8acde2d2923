-- ===== src/Tests/Tasks.antt =====
-- The executor, the keyboard and the reader at concrete inputs (src/task/, src/parser.rs).
use sil_os.Prelude.{
  ℕ, zero, suc, ◌≡◌, refl, arith, true, false, Option, List, [], ◌∷◌, ◌++◌, none, some, lookup,
}
use sil_os.Task.{Polled}
use sil_os.Task.Executor.{Executor, spawn, run_ready_tasks}
use sil_os.Task.Executor.Fair.{
  IsExecutor, WakesOnce, run_ready_tasks-IsExecutor, run_ready_tasks-next, spawn-IsExecutor,
}
use sil_os.Task.Keyboard.{Keys, pending, poll_next}
use sil_os.Task.Keyboard.Wakeup.{poll_next-pending}
use sil_os.Risp.{
  Token, RispExp, symbol, list, exps_nil, exps_cons, ok, parse, parse_atom, tokenize, open_paren,
  close_paren, panic,
}
use sil_os.Risp.Reader.{Answer, parse-Answer}
use sil_os.Risp.Grammar.{Written, one_token, in_parens, none_written, one_more, parse-Written}

-- A task that yields as many times as its state says.
abbrev countdown : ℕ → ℕ → Polled ℕ
countdown id zero = record { ready = true; future = 0; wakes = [] }
countdown id (suc n) = record { ready = false; future = n; wakes = id ∷ [] }

countdown-WakesOnce : (id n : ℕ) → WakesOnce (countdown id n)
countdown-WakesOnce id zero = record { once = omega arith; done = λ e. refl }
countdown-WakesOnce id (suc n) = record { once = omega arith; done = λ e. cc }

abbrev two_tasks : Executor ℕ
two_tasks = record { tasks = (4, 2) ∷ (7, 1) ∷ []; task_queue = 4 ∷ 7 ∷ []; waker_cache = [] }

two_tasks-IsExecutor : IsExecutor two_tasks
two_tasks-IsExecutor = record { queued = omega arith; fits = omega arith }

run_ready_tasks-IsExecutor_example :
    (e' : Executor ℕ) × (run_ready_tasks countdown 9 two_tasks ≡ some e') × IsExecutor e'
run_ready_tasks-IsExecutor_example =
    run_ready_tasks-IsExecutor countdown countdown-WakesOnce 9 two_tasks two_tasks-IsExecutor

run_ready_tasks-next_example :
    (e' : Executor ℕ) × (later : List ℕ) × (run_ready_tasks countdown 1 two_tasks ≡ some e')
    × (e'.task_queue ≡ 7 ∷ ([] ++ later))
run_ready_tasks-next_example =
    run_ready_tasks-next countdown countdown-WakesOnce (4 ∷ []) 7 [] two_tasks two_tasks-IsExecutor
      refl

spawn-IsExecutor_example :
    (e' : Executor ℕ) × (spawn countdown 9 5 two_tasks ≡ some e')
    × IsExecutor e'
    × (lookup 9 e'.tasks ≡ some 5)
    × (e'.task_queue ≡ (4 ∷ 7 ∷ []) ++ 9 ∷ [])
spawn-IsExecutor_example =
    spawn-IsExecutor countdown 9 5 two_tasks two_tasks-IsExecutor refl (omega arith)

abbrev pub idle_keys : Keys
idle_keys = record { scancode_queue = some []; waker = false; woken = false; warnings = 0 }

idle_pending : (poll_next [] [] idle_keys).0 ≡ pending
unfolding poll_next
idle_pending = refl

poll_next-pending_example :
    (◌≡◌ {A = List ℕ} [] [])
    × (◌≡◌ {A = List ℕ} [] [])
    × (◌≡◌ {A = List ℕ} [] [])
    × ((poll_next [] [] idle_keys).1.waker ≡ true)
poll_next-pending_example = poll_next-pending [] [] [] idle_keys refl (omega arith) idle_pending

-- A reader of floats that knows none.
abbrev no_floats : Token → Option ℕ
no_floats t = none

parse-Answer_example : Answer 2 (parse no_floats 5 (open_paren ∷ close_paren ∷ []))
parse-Answer_example = parse-Answer no_floats 5 (open_paren ∷ close_paren ∷ []) (omega arith)

abbrev x_exp : RispExp ℕ
x_exp = symbol (b'x' ∷ [])

x-Written : Written no_floats x_exp ((b'x' ∷ []) ∷ [])
unfolding parse_atom
x-Written = one_token (b'x' ∷ []) refl refl refl

abbrev list_tokens : List Token
list_tokens = open_paren ∷ (((b'x' ∷ []) ∷ []) ++ close_paren ∷ [])

parse-Written_example :
    parse no_floats 7 (list_tokens ++ close_paren ∷ [])
    ≡ ok (list (exps_cons x_exp exps_nil)) (close_paren ∷ [])
parse-Written_example =
    parse-Written no_floats 7 (list (exps_cons x_exp exps_nil)) list_tokens (close_paren ∷ [])
      (in_parens ((b'x' ∷ []) ∷ []) (one_more ((b'x' ∷ []) ∷ []) [] _ x-Written none_written refl))
      (omega arith)

-- A comment is skipped and a string keeps its parentheses.
tokenize_runs :
    tokenize (λ c. false) (b'(' ∷ b'a' ∷ b' ' ∷ b'"' ∷ b')' ∷ b'"' ∷ b'#' ∷ b'x' ∷ b'#' ∷ b')' ∷ [])
    ≡ open_paren ∷ (b'a' ∷ []) ∷ (b'"' ∷ b')' ∷ b'"' ∷ []) ∷ close_paren ∷ []
unfolding tokenize
tokenize_runs = refl

-- An unclosed string that holds nothing is the token `"`, which panics.
lone_quote : parse no_floats 3 (tokenize (λ c. false) (b'"' ∷ [])) ≡ panic
unfolding tokenize parse
lone_quote = refl
