-- ===== src/Commands/Bound.antt =====
-- A command that `bind` made (src/commands.rs: `bind`, `run_cmd`).
use sil_os.Prelude.{
  ℕ, suc, ◌≡◌, ◌≢◌, refl, arith, Bool, some, List, [], ◌∷◌, codes, join_by, same_bytes,
  if◌then◌else◌, same_bytes_refl, eq_of_same_bytes,
}
use sil_os.Risp.{Token}
use sil_os.Risp.System.{Floats}
use sil_os.Commands.{CommandFn, bound, Kernel, Keyboard}
use sil_os.Commands.Output.{worked}
use sil_os.Commands.Table.{table_insert, table_get, bind}
use sil_os.Commands.Run.{run_interpret, call_command, run_named, run_cmd}

table_get-table_insert :
    (j name : Token) (f : CommandFn) (c : List (Token × CommandFn))
    → table_get j (table_insert name f c) ≡ (if same_bytes name j then some f else table_get j c)
unfolding table_get table_insert
table_get-table_insert j name f [] = refl
table_get-table_insert j name f ((other, g) ∷ c) = ground (
  arith,
  eq_of_same_bytes other name,
  eq_of_same_bytes other j,
  eq_of_same_bytes name j,
  same_bytes_refl j,
  table_get-table_insert j name f c,
)

inserted_here :
    (name : Token) (f : CommandFn) (c : List (Token × CommandFn))
    → table_get name (table_insert name f c) ≡ some f
inserted_here name f c = ground (arith, table_get-table_insert name name f c, same_bytes_refl name)

inserted_elsewhere :
    (j name : Token) (f : CommandFn) (c : List (Token × CommandFn))
    → j ≢ name
    → table_get j (table_insert name f c) ≡ table_get j c
inserted_elsewhere j name f c n =
    ground (arith, table_get-table_insert j name f c, eq_of_same_bytes name j)

module _ {F E K : Type 0} (fl : Floats F) (kb : Keyboard E K) (is_space : ℕ → Bool) (fuel : ℕ)
    (k : Kernel E) where
  run_cmd-found :
      (name : Token) (args : List Token) (f : CommandFn)
      → table_get name k.commands ≡ some f
      → run_cmd fl kb is_space (suc fuel) (name ∷ args) k
        ≡ call_command fl kb is_space fuel (run_cmd fl kb is_space fuel) f (name ∷ args) k
  unfolding run_cmd run_named
  run_cmd-found name args f e = rw (e, run_named) refl

module _ {E : Type 0} (arg0 name word : Token) (words : List Token) (k : Kernel E) where
  -- The kernel after `bind`, of which only the table is changed.
  abbrev pub rebound : Kernel E
  rebound = record k {
    commands = table_insert name (bound (join_by (codes " ") (word ∷ words))) k.commands;
  }

  -- `bind` changes the table alone: the new name then runs the script of the words behind it,
  -- with the words that the command is given as its arguments, and every other name means what it
  -- meant.
  pub bind-run_cmd :
      {F K : Type 0} (fl : Floats F) (kb : Keyboard E K) (is_space : ℕ → Bool) (fuel : ℕ)
      (args : List Token) (other : Token)
      → other ≢ name
      → (bind (arg0 ∷ name ∷ word ∷ words) k ≡ worked (codes "Bound successfully") rebound)
        × (run_cmd fl kb is_space (suc fuel) (name ∷ args) rebound
            ≡ run_interpret fl kb is_space fuel
                (run_cmd fl kb is_space fuel)
                (codes "exec" ∷ join_by (codes " ") (word ∷ words) ∷ args)
                rebound)
        × (table_get other rebound.commands ≡ table_get other k.commands)
  unfolding bind call_command
  bind-run_cmd fl kb is_space fuel args other n = (
    refl,
    run_cmd-found fl kb is_space fuel rebound name args _ (inserted_here name _ k.commands),
    inserted_elsewhere other name _ k.commands n,
  )
