-- ===== src/Tests/Scripts.antt =====
-- Scripts of the Lisp at concrete inputs (src/parser.rs).
use sil_os.Prelude.{
  ℕ, ◌+◌, ◌-◌, ◌*◌, ◌/◌, ◌≡◌, refl, false, Option, List, [], ◌∷◌, none, some, ◌==◌, ltb, leb,
  if◌then◌else◌, codes, show_nat, ℤ, pos, negsuc,
}
use sil_os.Risp.{Token}
use sil_os.Risp.System.{Floats, System, CmdResult, success, process_error}
use sil_os.Risp.Env.{env_get}
use sil_os.Risp.Display.{display}
use sil_os.Risp.Eval.Forms.{eval_if, eval_def, eval_fn, eval_quote, eval_and, eval_for}
use sil_os.Risp.Eval.Variables.{eval_append}
use sil_os.Risp.Eval.Calls.{lookup_symbol, call, eval_sys, eval_error}
use sil_os.Risp.Interpret.{interpret}

abbrev pub nat_of : ℤ → ℕ
nat_of (pos n) = n
nat_of (negsuc n) = 0

-- One digit is a number, nothing else is.
abbrev pub digit_float : Token → Option ℕ
digit_float (c ∷ []) = if ltb c b'0' then none else if leb c b'9' then some (c - b'0') else none
digit_float _ = none

-- Numbers that behave like floats as far as these scripts go.
abbrev pub nat_floats : Floats ℕ
nat_floats = record {
  zero_f = 0;
  one_f = 1;
  add = λ a b. a + b;
  sub = λ a b. a - b;
  mul = λ a b. a * b;
  div = λ a b. a / b;
  eq = λ a b. a == b;
  lt = ltb;
  le = leb;
  as_i64 = λ n. pos n;
  as_f64 = nat_of;
  show = show_nat;
  show_i64 = λ n. show_nat (nat_of n);
  parse_float = digit_float;
}

-- A system that prints the words of every command.
abbrev pub echo_system : System (List (List Token))
echo_system = record {
  run_cmd = λ cmd w. success [] false (cmd ∷ w);
  println = λ s w. some ((s ∷ []) ∷ w);
  get_command_list = λ w. codes "echo" ∷ [];
}

abbrev script : List ℕ → CmdResult (List (List Token))
script s = interpret nat_floats echo_system (λ c. false) 40 (codes "exec" ∷ s ∷ []) []

-- A loop that counts to three, and prints the list that it made.
loop_runs :
    script
      (codes "(def l (list));(for (< (len l) 3) (append l (+ 1 (len l))));(sys echo (!! l 2) l);")
    ≡ success (codes "worked") false ((codes "echo" ∷ codes "3" ∷ codes "(1 2 3)" ∷ []) ∷ [])
unfolding interpret eval_def eval_fn call lookup_symbol eval_for eval_append eval_sys display
loop_runs = refl

closure_runs :
    script
      (codes "(def f (fn (x y) (if (= x y) (quote same) (* x y))));(sys echo (f 2 3) (f 2 2));")
    ≡ success (codes "worked") false ((codes "echo" ∷ codes "6" ∷ codes "same" ∷ []) ∷ [])
unfolding interpret eval_def eval_fn eval_sys lookup_symbol call eval_if eval_quote
closure_runs = refl

-- The handler prints the message, and the script goes on behind the failed statement.
error_runs :
    script (codes "(error \"no\");(sys echo (and true false));")
    ≡ process_error
        (codes "no")
        ((codes "echo" ∷ codes "false" ∷ []) ∷ (codes "echo" ∷ codes "no" ∷ []) ∷ [])
unfolding interpret eval_def eval_fn eval_error env_get eval_sys lookup_symbol eval_and
error_runs = refl

no_semicolon :
    script (codes "(sys echo 1)") ≡ process_error (codes "statements must end with a semicolon") []
unfolding interpret eval_def eval_fn
no_semicolon = refl
