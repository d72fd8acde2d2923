-- ===== src/Risp/Env.antt =====
-- Environments and maps (src/parser.rs: `RispEnv`, `env_get`, the uses of `BTreeMap`). A map's
-- pairs stand in the order of their keys, which its printing and `mkeys` show; nothing shows the
-- order of an environment.
use Prim.Native.Nat.{compare, Ordering}
use sil_os.Prelude.{
  ℕ, ◌≡◌, refl, Bool, true, false, Option, none, some, List, [], ◌∷◌, same_bytes, if◌then◌else◌,
  same_bytes_refl, eq_of_same_bytes, arith, ℤ, pos, negsuc,
}
use sil_os.Risp.{
  Token, RispExp, RispExps, RispMap, RispEnv, RispKey, string_key, number_key, bool_key, exps_nil,
  exps_cons, map_nil, map_cons, env_nil, env_cons,
}

module _ {F : Type 0} where
  unfoldable pub env_get : Token → RispEnv F → Option (RispExp F)
  env_get k env_nil = none
  env_get k (env_cons j v env) = if same_bytes j k then some v else env_get k env

  unfoldable pub env_insert : Token → RispExp F → RispEnv F → RispEnv F
  env_insert k v env_nil = env_cons k v env_nil
  env_insert k v (env_cons j w env) =
      if same_bytes j k then env_cons k v env else env_cons j w (env_insert k v env)

  -- `for (k, v) in captured.iter() { merged_env.data.insert(k.clone(), v.clone()); }`
  unfoldable pub env_merge : RispEnv F → RispEnv F → RispEnv F
  unfolding env_insert
  env_merge env_nil env = env
  env_merge (env_cons k v captured) env = env_merge captured (env_insert k v env)

  abbrev pub to_list : RispExps F → List (RispExp F)
  to_list exps_nil = []
  to_list (exps_cons e es) = e ∷ to_list es

  abbrev pub of_list : List (RispExp F) → RispExps F
  of_list [] = exps_nil
  of_list (e ∷ es) = exps_cons e (of_list es)

  -- `Vec::push`
  abbrev pub push_back : RispExps F → RispExp F → RispExps F
  push_back exps_nil v = exps_cons v exps_nil
  push_back (exps_cons e es) v = exps_cons e (push_back es v)

  -- `Vec::pop`: what is left, and the last expression.
  abbrev pub with_front :
      RispExp F → Option (RispExps F × RispExp F) → Option (RispExps F × RispExp F)
  with_front e none = none
  with_front e (some (es, v)) = some (exps_cons e es, v)

  unfoldable pub pop_back : RispExps F → Option (RispExps F × RispExp F)
  pop_back exps_nil = none
  pop_back (exps_cons e exps_nil) = some (exps_nil, e)
  pop_back (exps_cons e (exps_cons d es)) = with_front e (pop_back (exps_cons d es))

-- The order of code points, then of integers, as derived for `RispKey`.
abbrev pub then_cmp : Ordering → Ordering → Ordering
then_cmp Ordering.eq o = o
then_cmp Ordering.lt o = Ordering.lt
then_cmp Ordering.gt o = Ordering.gt

abbrev pub text_cmp : List ℕ → List ℕ → Ordering
text_cmp [] [] = Ordering.eq
text_cmp [] (_ ∷ _) = Ordering.lt
text_cmp (_ ∷ _) [] = Ordering.gt
text_cmp (a ∷ s) (b ∷ t) = then_cmp (compare a b) (text_cmp s t)

abbrev pub int_cmp : ℤ → ℤ → Ordering
int_cmp (pos a) (pos b) = compare a b
int_cmp (pos a) (negsuc b) = Ordering.gt
int_cmp (negsuc a) (pos b) = Ordering.lt
int_cmp (negsuc a) (negsuc b) = compare b a

abbrev pub bool_cmp : Bool → Bool → Ordering
bool_cmp false false = Ordering.eq
bool_cmp false true = Ordering.lt
bool_cmp true false = Ordering.gt
bool_cmp true true = Ordering.eq

abbrev pub key_cmp : RispKey → RispKey → Ordering
key_cmp (string_key s) (string_key t) = text_cmp s t
key_cmp (string_key s) (number_key n) = Ordering.lt
key_cmp (string_key s) (bool_key b) = Ordering.lt
key_cmp (number_key n) (string_key t) = Ordering.gt
key_cmp (number_key n) (number_key m) = int_cmp n m
key_cmp (number_key n) (bool_key b) = Ordering.lt
key_cmp (bool_key b) (string_key t) = Ordering.gt
key_cmp (bool_key b) (number_key n) = Ordering.gt
key_cmp (bool_key b) (bool_key c) = bool_cmp b c

module _ {F : Type 0} where
  unfoldable pub map_get : RispKey → RispMap F → Option (RispExp F)
  map_get k map_nil = none
  map_get k (map_cons j v m) = elim (key_cmp j k) [ Ordering.eq ↦ some v | _ ↦ map_get k m ]

  unfoldable pub map_insert : RispKey → RispExp F → RispMap F → RispMap F
  map_insert k v map_nil = map_cons k v map_nil
  map_insert k v (map_cons j w m) = elim (key_cmp j k) [
    | Ordering.lt ↦ map_cons j w (map_insert k v m)
    | Ordering.eq ↦ map_cons k v m
    | Ordering.gt ↦ map_cons k v (map_cons j w m)
  ]

  unfoldable pub map_remove : RispKey → RispMap F → RispMap F
  map_remove k map_nil = map_nil
  map_remove k (map_cons j w m) = elim (key_cmp j k) [
    | Ordering.eq ↦ m
    | _ ↦ map_cons j w (map_remove k m)
  ]

  abbrev pub map_keys : RispMap F → List RispKey
  map_keys map_nil = []
  map_keys (map_cons k v m) = k ∷ map_keys m

  -- What is bound is found, and no other name is touched.
  pub env_get-env_insert :
      (j k : Token) (v : RispExp F) (env : RispEnv F)
      → env_get j (env_insert k v env) ≡ (if same_bytes k j then some v else env_get j env)
  unfolding env_get env_insert
  env_get-env_insert j k v env_nil = refl
  env_get-env_insert j k v (env_cons i w env) = ground (
    arith,
    eq_of_same_bytes i k,
    eq_of_same_bytes i j,
    eq_of_same_bytes k j,
    same_bytes_refl j,
    env_get-env_insert j k v env,
  )
