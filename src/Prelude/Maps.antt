-- ===== src/Prelude/Maps.antt =====
-- Maps with numbers for keys as association lists: the operations of `BTreeMap` that are used.
use Prim.Native.Nat.{ℕ, suc}
use mathlib.Core.Path.{◌≡◌, refl}
use mathlib.Core.List.{List, [], ◌∷◌}
use mathlib.Core.Option.{Option, none, some}
use native.Mathlib.Omega.{arith}
use sil_os.Prelude.Tests.{◌==◌, if◌then◌else◌}
use sil_os.Prelude.Lists.{length}

module _ {V : Type 0} where
  abbrev pub lookup : ℕ → List (ℕ × V) → Option V
  lookup k [] = none
  lookup k ((k', v) ∷ m) = if k == k' then some v else lookup k m

  abbrev pub insert : ℕ → V → List (ℕ × V) → List (ℕ × V)
  insert k v [] = (k, v) ∷ []
  insert k v ((k', v') ∷ m) = if k == k' then (k, v) ∷ m else (k', v') ∷ insert k v m

  abbrev pub remove : ℕ → List (ℕ × V) → List (ℕ × V)
  remove k [] = []
  remove k ((k', v) ∷ m) = if k == k' then m else (k', v) ∷ remove k m

  pub length-remove :
      (k : ℕ) (v : V) (m : List (ℕ × V))
      → lookup k m ≡ some v
      → suc (length (remove k m)) ≡ length m
  length-remove k v [] h = cc
  length-remove k v ((k', v') ∷ m) h = ground (arith, length-remove k v m)

  pub length-insert_new :
      (k : ℕ) (v : V) (m : List (ℕ × V))
      → lookup k m ≡ none
      → length (insert k v m) ≡ suc (length m)
  length-insert_new k v [] h = refl
  length-insert_new k v ((k', v') ∷ m) h = ground (arith, length-insert_new k v m)

  pub length-insert_old :
      (k : ℕ) (v v' : V) (m : List (ℕ × V))
      → lookup k m ≡ some v'
      → length (insert k v m) ≡ length m
  length-insert_old k v v' [] h = cc
  length-insert_old k v v' ((k', w) ∷ m) h = ground (arith, length-insert_old k v v' m)

  pub lookup-insert_self : (k : ℕ) (v : V) (m : List (ℕ × V)) → lookup k (insert k v m) ≡ some v
  lookup-insert_self k v [] = ground arith
  lookup-insert_self k v ((k', v') ∷ m) = ground (arith, lookup-insert_self k v m)
