-- ===== src/HashMap/Laws.antt =====
-- What is put is found, and what is removed is not (src/hashmap.rs).
use sil_os.Prelude.{
  ℕ, zero, suc, ◌≤◌, ◌<◌, ◌≡◌, ◌%◌, inl, inr, refl, ap, sym, ◌∙◌, arith, true, Bool-cases, none,
  some, List, [], ◌∷◌, ◌++◌, get_elem?, get_or, set, length, length-set, get_or-set_self,
}
use native.Mathlib.Nat.{mod-eq_of_lt}
use sil_os.HashMap.{Key, find_in, get, put, retain_others, remove_key}

get_elem?-get_or :
    {A : Type 0} (xs : List A) (i : ℕ) (d : A)
    → i < length xs
    → get_elem? xs i ≡ some (get_or xs i d)
get_elem?-get_or [] i d h = absurd (omega arith)
get_elem?-get_or (x ∷ xs) zero d h = refl
get_elem?-get_or (x ∷ xs) (suc i) d h = get_elem?-get_or xs i d (omega arith)

get_elem?_past : {A : Type 0} (xs : List A) (i : ℕ) → length xs ≤ i → get_elem? xs i ≡ none
get_elem?_past [] i h = refl
get_elem?_past (x ∷ xs) zero h = absurd (omega arith)
get_elem?_past (x ∷ xs) (suc i) h = get_elem?_past xs i (omega arith)

module _ {K V : Type 0} (key : Key K) (k : K) (same : key.eq k k ≡ true) where
  find_in-snoc :
      (v : V) (bucket : List (K × V))
      → find_in key k bucket ≡ none
      → find_in key k (bucket ++ (k, v) ∷ []) ≡ some v
  find_in-snoc v [] h = rw same refl
  find_in-snoc v ((k', w) ∷ bucket) h = elim (Bool-cases (key.eq k' k)) [
    | inl e ↦ let bad = rw (e, find_in) at h in cc
    | inr e ↦ rw (e, find_in) (find_in-snoc v bucket (rw (e, find_in) at h))
  ]

  find_in-retain_others :
      (bucket : List (K × V)) → find_in key k (retain_others key k bucket) ≡ none
  find_in-retain_others [] = refl
  find_in-retain_others ((k', w) ∷ bucket) = elim (Bool-cases (key.eq k' k)) [
    | inl e ↦ rw (e, retain_others) (find_in-retain_others bucket)
    | inr e ↦ rw (e, retain_others) (rw (e, find_in) (find_in-retain_others bucket))
  ]

  module _ (buckets : List (List (K × V))) (fits : key.hash k < length buckets) where
    whole : key.hash k % length buckets ≡ key.hash k
    whole = mod-eq_of_lt fits

    get_put_bucket : (b : List (K × V)) → get key k (set buckets (key.hash k) b) ≡ find_in key k b
    unfolding get
    get_put_bucket b =
        ap (λ n. find_in key k (get_or (set buckets (key.hash k) b) (key.hash k % n) []))
          (length-set buckets (key.hash k) b)
        ∙ ap (λ i. find_in key k (get_or (set buckets (key.hash k) b) i [])) whole
        ∙ ap (find_in key k) (get_or-set_self buckets (key.hash k) b [] fits)

    -- If the hash of a key that equals itself is below the number of buckets, a value that is put
    -- under the key, which was not in the map, is found.
    pub get-put :
        (v : V)
        → get key k buckets ≡ none
        → (buckets' : List (List (K × V))) × (put key k v buckets ≡ some buckets')
          × (get key k buckets' ≡ some v)
    unfolding get put
    get-put v absent =
        let bucket = get_or buckets (key.hash k) [] in
        let fresh : find_in key k bucket ≡ none =
          ap (λ i. find_in key k (get_or buckets i [])) (sym whole) ∙ absent in
        (
          set buckets (key.hash k) (bucket ++ (k, v) ∷ []),
          rw (get_elem?-get_or buckets (key.hash k) [] fits, put) refl,
          get_put_bucket (bucket ++ (k, v) ∷ []) ∙ find_in-snoc v bucket fresh,
        )

    -- If the hash of a key that equals itself is below the number of buckets, the key is not found
    -- once it is removed, whatever value the call names.
    pub get-remove_key :
        (v : V)
        → (buckets' : List (List (K × V))) × (remove_key key k v buckets ≡ some buckets')
          × (get key k buckets' ≡ none)
    unfolding get remove_key
    get-remove_key v =
        let bucket = get_or buckets (key.hash k) [] in
        (
          set buckets (key.hash k) (retain_others key k bucket),
          rw (get_elem?-get_or buckets (key.hash k) [] fits, remove_key) refl,
          get_put_bucket (retain_others key k bucket) ∙ find_in-retain_others bucket,
        )

  -- Putting a key whose hash is not below the number of buckets panics.
  pub put-panics :
      (v : V) (buckets : List (List (K × V)))
      → length buckets ≤ key.hash k
      → put key k v buckets ≡ none
  unfolding put
  put-panics v buckets h = rw (get_elem?_past buckets (key.hash k) h, put) refl
