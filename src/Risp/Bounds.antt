-- ===== src/Risp/Bounds.antt =====
-- Indices of a list, from the front and from the end (src/parser.rs: `!!` of `default_env`).
use sil_os.Prelude.{
  ℕ, zero, suc, ◌+◌, ◌-◌, ◌<◌, ◌≡◌, refl, arith, Bool, true, false, none, some, List, [], ◌∷◌, ◌++◌,
  ltb, length, get_elem?, ℤ, pos, negsuc, codes, length-append, ap, ltb→lt, ltb→le, lt→ltb,
  Bool-cases, inl, inr, ◌≤◌, sym, ◌∙◌,
}
use sil_os.Risp.{RispExp}
use sil_os.Risp.System.{Floats}
use sil_os.Risp.Builtins.{Result, ok, err, or_err, index_list, wrap_index, index_of}

abbrev pub is_ok : {A : Type 0} → Result A → Bool
is_ok (ok a) = true
is_ok (err e) = false

-- From minus the length, which is the first element, up to the length.
abbrev pub in_range : ℕ → ℤ → Bool
in_range len (pos n) = ltb n len
in_range len (negsuc n) = ltb n len

get_elem?-in_range :
    {A : Type 0} (l : List A) (e : List ℕ) (i : ℕ)
    → is_ok (or_err (get_elem? l i) e) ≡ ltb i (length l)
get_elem?-in_range [] e i = ground arith
get_elem?-in_range (x ∷ l) e zero = ground arith
get_elem?-in_range (x ∷ l) e (suc i) = ground (arith, get_elem?-in_range l e i)

wrap_index-in : (len n : ℕ) → n < len → wrap_index len (negsuc n) ≡ pos (len - suc n)
wrap_index-in len n l = ground arith

wrap_index-out : (len n : ℕ) → len ≤ n → wrap_index len (negsuc n) ≡ negsuc (n - len)
wrap_index-out len n l = ground arith

module _ {F : Type 0} (fl : Floats F) where
  -- The element at an index that is wrapped already.
  abbrev element : List (RispExp F) → ℤ → Result (RispExp F)
  element l (pos i) = or_err (get_elem? l i) (codes "index out of bounds")
  element l (negsuc i) = err (codes "index out of bounds")

  element-wrap :
      (l : List (RispExp F)) (i j : ℤ)
      → wrap_index (length l) i ≡ j
      → index_list fl l i ≡ element l j
  unfolding index_list
  element-wrap l i j e = unwrapped (wrap_index (length l) i) ∙ ap (element l) e
    where
      unwrapped :
          (k : ℤ)
          → elim (index_of k) [
            | none ↦ err (codes "index out of bounds")
            | some i ↦ or_err (get_elem? l i) (codes "index out of bounds")
          ]
            ≡ element l k
      unwrapped (pos k) = refl
      unwrapped (negsuc k) = refl

  -- The index of a list is accepted exactly when it is at least minus the length of the list and
  -- less than the length.
  pub index_list-in_range :
      (l : List (RispExp F)) (i : ℤ) → is_ok (index_list fl l i) ≡ in_range (length l) i
  unfolding index_list
  index_list-in_range l (pos n) = get_elem?-in_range l _ n
  index_list-in_range l (negsuc n) = elim (Bool-cases (ltb n (length l))) [
    | inl t ↦
        ap is_ok (element-wrap l (negsuc n) _ (wrap_index-in (length l) n (ltb→lt _ _ t)))
        ∙ (get_elem?-in_range l _ _ ∙ (lt→ltb _ _ (omega (arith, ltb→lt _ _ t)) ∙ sym t))
    | inr t ↦
        ap is_ok (element-wrap l (negsuc n) _ (wrap_index-out (length l) n (ltb→le _ _ t))) ∙ sym t
  ]

  get_elem?-at :
      (l r : List (RispExp F)) (v : RispExp F) → get_elem? (l ++ v ∷ r) (length l) ≡ some v
  get_elem?-at [] r v = refl
  get_elem?-at (x ∷ l) r v = get_elem?-at l r v

  from_end :
      (before after : List (RispExp F)) (v : RispExp F)
      → wrap_index (length (before ++ v ∷ after)) (negsuc (length after)) ≡ pos (length before)
  from_end before after v =
      let e : length (before ++ v ∷ after) ≡ length before + suc (length after) =
        length-append before (v ∷ after) in
      wrap_index-in _ _ (omega (arith, e)) ∙ ap pos (omega (arith, e))

  -- The element with `length before` others before it and `length after` behind it has two indices.
  pub index_list-both_ends :
      (before after : List (RispExp F)) (v : RispExp F)
      → (index_list fl (before ++ v ∷ after) (pos (length before)) ≡ ok v)
        × (index_list fl (before ++ v ∷ after) (negsuc (length after)) ≡ ok v)
  unfolding index_list
  index_list-both_ends before after v =
      let at : or_err (get_elem? (before ++ v ∷ after) (length before))
            (codes "index out of bounds")
          ≡ ok v =
        rw (get_elem?-at before after v) refl in
      (
        element-wrap (before ++ v ∷ after) (pos (length before)) _ refl ∙ at,
        element-wrap (before ++ v ∷ after) (negsuc (length after)) _ (from_end before after v) ∙ at,
      )
