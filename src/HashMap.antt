-- ===== src/HashMap.antt =====
-- The hash map (src/hashmap.rs). Keys, their hash and their equality are parameters; `none` is the
-- panic of an index out of range.
pub mod Laws
use sil_os.Prelude.{
  ℕ, ◌%◌, Bool, Option, none, some, List, [], ◌∷◌, ◌++◌, if◌then◌else◌, get_elem?, get_or, set,
  length, replicate,
}

-- The interface of a key: `Hashable` and `PartialEq`.
pub record Key (K : Type 0) : Type 0 where
  pub hash : K → ℕ
  pub eq : K → K → Bool

module _ {K V : Type 0} (key : Key K) where
  abbrev pub buckets_new : List (List (K × V))
  buckets_new = replicate 128 []

  -- `for element in bucket.iter() { if element.matches(&key) { .. } }`
  abbrev pub find_in : K → List (K × V) → Option V
  find_in k [] = none
  find_in k ((k', v) ∷ bucket) = let rest = find_in k bucket in if key.eq k' k then some v else rest

  -- `% self.buckets.len()` is a division by zero on an empty map; `new` makes 128 buckets.
  unfoldable pub get : K → List (List (K × V)) → Option V
  get k buckets = find_in k (get_or buckets (key.hash k % length buckets) [])

  unfoldable pub put : K → V → List (List (K × V)) → Option (List (List (K × V)))
  put k v buckets = elim (get_elem? buckets (key.hash k)) [
    | none ↦ none
    | some bucket ↦ some (set buckets (key.hash k) (bucket ++ (k, v) ∷ []))
  ]

  -- `bucket.retain(|x| *x != r)`: pairs are equal when their keys are.
  abbrev pub retain_others : K → List (K × V) → List (K × V)
  retain_others k [] = []
  retain_others k ((k', v) ∷ bucket) =
      let rest = retain_others k bucket in if key.eq k' k then rest else (k', v) ∷ rest

  unfoldable pub remove_key : K → V → List (List (K × V)) → Option (List (List (K × V)))
  remove_key k v buckets = elim (get_elem? buckets (key.hash k)) [
    | none ↦ none
    | some bucket ↦ some (set buckets (key.hash k) (retain_others k bucket))
  ]
