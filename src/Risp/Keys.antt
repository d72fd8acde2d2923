-- ===== src/Risp/Keys.antt =====
-- Maps by their keys, and `mset` (src/parser.rs: `RispKey`, `eval`, `default_env`).
use Prim.Native.Nat.{compare, Ordering}
use sil_os.Prelude.{
  ℕ, ◌≡◌, ◌≢◌, refl, sym, ap, ◌∙◌, arith, true, false, some, List, [], ◌∷◌, pos, negsuc,
  same_bytes_refl,
}
use sil_os.Risp.{
  Token, RispExp, RispMap, RispKey, string_key, number_key, bool_key, symbol, map, exps_nil,
  exps_cons, map_nil, map_cons,
}
use sil_os.Risp.Env.{
  text_cmp, key_cmp, map_get, map_insert, env_get, env_insert, env_get-env_insert,
}
use sil_os.Risp.System.{Floats}
use sil_os.Risp.Builtins.{ok, key_of, index, or_empty}
use sil_os.Risp.Eval.Action.{M, State, done, get_map}
use sil_os.Risp.Eval.Variables.{eval_mset}

compare_eq : (a b : ℕ) → compare a b ≡ Ordering.eq → a ≡ b
compare_eq a b h = ground arith

compare_refl : (a : ℕ) → compare a a ≡ Ordering.eq
compare_refl a = ground arith

text_cmp_eq : (s t : List ℕ) → text_cmp s t ≡ Ordering.eq → s ≡ t
text_cmp_eq [] [] h = refl
text_cmp_eq [] (b ∷ t) h = absurd (ground (arith, h))
text_cmp_eq (a ∷ s) [] h = absurd (ground (arith, h))
text_cmp_eq (a ∷ s) (b ∷ t) h = ground (arith, compare_eq a b, text_cmp_eq s t)

text_cmp_refl : (s : List ℕ) → text_cmp s s ≡ Ordering.eq
text_cmp_refl [] = refl
text_cmp_refl (a ∷ s) = rw (compare_refl a) (text_cmp_refl s)

key_cmp_eq : (j k : RispKey) → key_cmp j k ≡ Ordering.eq → j ≡ k
key_cmp_eq (string_key s) (string_key t) h = ap string_key (text_cmp_eq s t h)
key_cmp_eq (string_key s) (number_key n) h = absurd (ground (arith, h))
key_cmp_eq (string_key s) (bool_key b) h = absurd (ground (arith, h))
key_cmp_eq (number_key n) (string_key t) h = absurd (ground (arith, h))
key_cmp_eq (number_key (pos a)) (number_key (pos b)) h =
    ap (λ n. number_key (pos n)) (compare_eq a b h)
key_cmp_eq (number_key (pos a)) (number_key (negsuc b)) h = absurd (ground (arith, h))
key_cmp_eq (number_key (negsuc a)) (number_key (pos b)) h = absurd (ground (arith, h))
key_cmp_eq (number_key (negsuc a)) (number_key (negsuc b)) h =
    ap (λ n. number_key (negsuc n)) (sym (compare_eq b a h))
key_cmp_eq (number_key n) (bool_key b) h = absurd (ground (arith, h))
key_cmp_eq (bool_key b) (string_key t) h = absurd (ground (arith, h))
key_cmp_eq (bool_key b) (number_key n) h = absurd (ground (arith, h))
key_cmp_eq (bool_key false) (bool_key false) h = refl
key_cmp_eq (bool_key false) (bool_key true) h = absurd (ground (arith, h))
key_cmp_eq (bool_key true) (bool_key false) h = absurd (ground (arith, h))
key_cmp_eq (bool_key true) (bool_key true) h = refl

key_cmp_refl : (k : RispKey) → key_cmp k k ≡ Ordering.eq
key_cmp_refl (string_key s) = text_cmp_refl s
key_cmp_refl (number_key (pos a)) = compare_refl a
key_cmp_refl (number_key (negsuc a)) = compare_refl a
key_cmp_refl (bool_key false) = refl
key_cmp_refl (bool_key true) = refl

module _ {F : Type 0} where
  map_get-map_insert_self :
      (k : RispKey) (v : RispExp F) (m : RispMap F) → map_get k (map_insert k v m) ≡ some v
  unfolding map_get map_insert
  map_get-map_insert_self k v map_nil = rw (key_cmp_refl k, map_get) refl
  map_get-map_insert_self k v (map_cons j w m) =
      ground (arith, key_cmp_refl k, map_get-map_insert_self k v m)

  map_get-map_insert_ne :
      (i k : RispKey) (v : RispExp F) (m : RispMap F)
      → i ≢ k
      → map_get i (map_insert k v m) ≡ map_get i m
  unfolding map_get map_insert
  map_get-map_insert_ne i k v map_nil n = ground (arith, key_cmp_eq k i)
  map_get-map_insert_ne i k v (map_cons j w m) n =
      ground (arith, key_cmp_eq k i, key_cmp_eq j k, map_get-map_insert_ne i k v m n)

module _ {F W : Type 0} (fl : Floats F) (rec : RispExp F → M F W (RispExp F)) (name : Token)
    (key_form val_form : RispExp F) (s s1 s2 : State F W) (ke v : RispExp F) (key : RispKey)
    (m : RispMap F) where
  -- The map and the state behind `(mset name key_form val_form)`.
  abbrev pub changed : RispMap F
  changed = map_insert key v m

  abbrev pub behind : State F W
  behind = record s2 { env = env_insert name (map changed) s2.env }

  index-map :
      (e : RispExp F) (k : RispKey) (n : RispMap F)
      → key_of fl e ≡ ok k
      → index fl (map n) e ≡ ok (or_empty fl (map_get k n))
  unfolding index
  index-map e k n h = rw (h, index) refl

  mset_done :
      rec key_form s ≡ done ke s1
      → key_of fl ke ≡ ok key
      → rec val_form s1 ≡ done v s2
      → env_get name s2.env ≡ some (map m)
      → eval_mset fl rec
          (exps_cons (symbol name) (exps_cons key_form (exps_cons val_form exps_nil)))
          s
        ≡ done v behind
  unfolding eval_mset get_map
  mset_done r1 k1 r2 g = rw (r1, eval_mset) (rw k1 (rw r2 (rw g refl)))

  bound_behind : env_get name behind.env ≡ some (map changed)
  bound_behind =
      ground (arith, env_get-env_insert name name (map changed) s2.env, same_bytes_refl name)

  -- If the key and the value of an `mset` evaluate, the key to one of a map's keys, and its
  -- variable holds a map then, `mset` binds the variable to a map in which `!!` finds that value
  -- under the key, and under every other key what it found before; nothing else in the
  -- environment or the world is changed.
  pub eval_mset-index :
      rec key_form s ≡ done ke s1
      → key_of fl ke ≡ ok key
      → rec val_form s1 ≡ done v s2
      → env_get name s2.env ≡ some (map m)
      → (other : RispExp F) (other_key : RispKey) → key_of fl other ≡ ok other_key
      → other_key ≢ key
      → (eval_mset fl rec
            (exps_cons (symbol name) (exps_cons key_form (exps_cons val_form exps_nil)))
            s
          ≡ done v behind)
        × (env_get name behind.env ≡ some (map changed))
        × (index fl (map changed) ke ≡ ok v)
        × (index fl (map changed) other ≡ index fl (map m) other)
  eval_mset-index r1 k1 r2 g other other_key k2 n = (
    mset_done r1 k1 r2 g,
    bound_behind,
    index-map ke key changed k1 ∙ ap (λ o. ok (or_empty fl o)) (map_get-map_insert_self key v m),
    (index-map other other_key changed k2
          ∙ ap (λ o. ok (or_empty fl o)) (map_get-map_insert_ne other_key key v m n))
        ∙ sym (index-map other other_key m k2),
  )
