-- ===== src/Risp/Eval/Variables.antt =====
-- The special forms that change a variable: `append`, `pop`, `mset`, `mdel` (src/parser.rs: `eval`).
use sil_os.Prelude.{true, codes}
use sil_os.Risp.{RispExp, RispExps, bool, list, map}
use sil_os.Risp.Env.{push_back, pop_back, map_insert, map_remove}
use sil_os.Risp.System.{Floats}
use sil_os.Risp.Builtins.{key_of}
use sil_os.Risp.Eval.Action.{
  M, pure, or_fail, lift, ◌>>=◌, ◌>>◌, get_arg, symbol_name, bind_name, get_list, get_map,
}

module _ {F W : Type 0} (fl : Floats F) (rec : RispExp F → M F W (RispExp F)) where
  unfoldable pub eval_append : RispExps F → M F W (RispExp F)
  unfolding get_list
  eval_append args = do
    sym_form ← get_arg 0 (codes "expected symbol for append") args
    val_form ← get_arg 1 (codes "expected value to append") args
    sym_name ← symbol_name (codes "append requires a variable name (symbol)") sym_form
    evaled_val ← rec val_form
    current_list ← get_list sym_name
    bind_name sym_name (list (push_back current_list evaled_val))
    pure (list (push_back current_list evaled_val))

  unfoldable pub eval_pop : RispExps F → M F W (RispExp F)
  unfolding get_list pop_back
  eval_pop args = do
    sym_form ← get_arg 0 (codes "expected symbol for pop") args
    sym_name ← symbol_name (codes "pop requires a variable name (symbol)") sym_form
    current_list ← get_list sym_name
    (left, popped_val) ← or_fail (pop_back current_list) (codes "cannot pop from an empty list")
    bind_name sym_name (list left)
    pure popped_val

  unfoldable pub eval_mset : RispExps F → M F W (RispExp F)
  unfolding get_map map_insert
  eval_mset args = do
    sym_form ← get_arg 0 (codes "expected symbol for mset") args
    key_form ← get_arg 1 (codes "expected key for mset") args
    val_form ← get_arg 2 (codes "expected value for mset") args
    sym_name ← symbol_name (codes "mset requires a variable name (symbol)") sym_form
    evaled_key ← rec key_form
    key ← lift (key_of fl evaled_key)
    evaled_val ← rec val_form
    current_map ← get_map sym_name
    bind_name sym_name (map (map_insert key evaled_val current_map))
    pure evaled_val

  unfoldable pub eval_mdel : RispExps F → M F W (RispExp F)
  unfolding get_map map_remove
  eval_mdel args = do
    sym_form ← get_arg 0 (codes "expected symbol for mdel") args
    key_form ← get_arg 1 (codes "expected key for mdel") args
    sym_name ← symbol_name (codes "mdel requires a variable name (symbol)") sym_form
    evaled_key ← rec key_form
    key ← lift (key_of fl evaled_key)
    current_map ← get_map sym_name
    bind_name sym_name (map (map_remove key current_map))
    pure (bool true)
