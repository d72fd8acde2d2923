-- ===== src/Prelude/Lists.antt =====
-- Lists measured, indexed and cut by native numbers, under the library's names.
use Prim.Native.Nat.{ℕ, zero, suc, ◌+◌, ◌-◌, ◌≤◌, ◌<◌, min}
use mathlib.Core.Path.{◌≡◌, refl, ap, ◌∙◌}
use mathlib.Core.Logic.{◌≢◌}
use mathlib.Core.Bool.{Bool, true, false}
use mathlib.Core.List.{List, [], ◌∷◌, ◌++◌}
use mathlib.Core.Option.{Option, none, some}
use native.Mathlib.Omega.{arith}

module _ {ℓ} {A : Type ℓ} where
  abbrev pub length : List A → ℕ
  length [] = 0
  length (x ∷ xs) = suc (length xs)

  abbrev pub is_empty : List A → Bool
  is_empty [] = true
  is_empty (x ∷ xs) = false

  abbrev pub get_elem? : List A → ℕ → Option A
  get_elem? [] i = none
  get_elem? (x ∷ xs) zero = some x
  get_elem? (x ∷ xs) (suc i) = get_elem? xs i

  abbrev pub get_or : List A → ℕ → A → A
  get_or [] i d = d
  get_or (x ∷ xs) zero d = x
  get_or (x ∷ xs) (suc i) d = get_or xs i d

  abbrev pub set : List A → ℕ → A → List A
  set [] i v = []
  set (x ∷ xs) zero v = v ∷ xs
  set (x ∷ xs) (suc i) v = x ∷ set xs i v

  abbrev pub take : ℕ → List A → List A
  take zero xs = []
  take (suc n) [] = []
  take (suc n) (x ∷ xs) = x ∷ take n xs

  abbrev pub drop : ℕ → List A → List A
  drop zero xs = xs
  drop (suc n) [] = []
  drop (suc n) (x ∷ xs) = drop n xs

  abbrev pub replicate : ℕ → A → List A
  replicate zero a = []
  replicate (suc n) a = a ∷ replicate n a

  -- `xs[off..off + n]`
  abbrev pub slice : List A → ℕ → ℕ → List A
  slice xs off n = take n (drop off xs)

  -- `xs[off..off + src.len()].copy_from_slice(src)`
  abbrev pub overwrite : ℕ → List A → List A → List A
  overwrite zero [] ys = ys
  overwrite zero (s ∷ src) [] = []
  overwrite zero (s ∷ src) (y ∷ ys) = s ∷ overwrite zero src ys
  overwrite (suc off) src [] = []
  overwrite (suc off) src (y ∷ ys) = y ∷ overwrite off src ys

module _ {ℓ} {A : Type ℓ} where
  pub length-append : (xs ys : List A) → length (xs ++ ys) ≡ length xs + length ys
  length-append [] ys = omega arith
  length-append (x ∷ xs) ys = omega (arith, length-append xs ys)

  pub length-set : (xs : List A) (i : ℕ) (v : A) → length (set xs i v) ≡ length xs
  length-set [] i v = refl
  length-set (x ∷ xs) zero v = refl
  length-set (x ∷ xs) (suc i) v = ap suc (length-set xs i v)

  pub length-overwrite : (off : ℕ) (src ys : List A) → length (overwrite off src ys) ≡ length ys
  length-overwrite zero [] ys = refl
  length-overwrite zero (s ∷ src) [] = refl
  length-overwrite zero (s ∷ src) (y ∷ ys) = ap suc (length-overwrite zero src ys)
  length-overwrite (suc off) src [] = refl
  length-overwrite (suc off) src (y ∷ ys) = ap suc (length-overwrite off src ys)

  pub length-replicate : (n : ℕ) (a : A) → length (replicate n a) ≡ n
  length-replicate zero a = refl
  length-replicate (suc n) a = ap suc (length-replicate n a)

  pub length-take : (n : ℕ) (xs : List A) → length (take n xs) ≡ min n (length xs)
  length-take zero xs = omega arith
  length-take (suc n) [] = omega arith
  length-take (suc n) (x ∷ xs) = omega (arith, length-take n xs)

  pub length-drop : (n : ℕ) (xs : List A) → length (drop n xs) ≡ length xs - n
  length-drop zero xs = omega arith
  length-drop (suc n) [] = omega arith
  length-drop (suc n) (x ∷ xs) = omega (arith, length-drop n xs)

  pub get_or-set_self :
      (xs : List A) (i : ℕ) (v d : A) → i < length xs → get_or (set xs i v) i d ≡ v
  get_or-set_self [] i v d h = absurd (omega arith)
  get_or-set_self (x ∷ xs) zero v d h = refl
  get_or-set_self (x ∷ xs) (suc i) v d h = get_or-set_self xs i v d (omega arith)

  pub get_or-set_ne :
      (xs : List A) (i j : ℕ) (v d : A) → i ≢ j → get_or (set xs i v) j d ≡ get_or xs j d
  get_or-set_ne [] i j v d h = refl
  get_or-set_ne (x ∷ xs) zero zero v d h = absurd (h refl)
  get_or-set_ne (x ∷ xs) zero (suc j) v d h = refl
  get_or-set_ne (x ∷ xs) (suc i) zero v d h = refl
  get_or-set_ne (x ∷ xs) (suc i) (suc j) v d h = get_or-set_ne xs i j v d (λ e. h (ap suc e))

  pub drop_all : (n : ℕ) (xs : List A) → length xs ≤ n → drop n xs ≡ []
  drop_all zero [] h = refl
  drop_all zero (x ∷ xs) h = absurd (omega arith)
  drop_all (suc n) [] h = refl
  drop_all (suc n) (x ∷ xs) h = drop_all n xs (omega arith)

  pub take_all : (n : ℕ) (xs : List A) → length xs ≤ n → take n xs ≡ xs
  take_all zero [] h = refl
  take_all zero (x ∷ xs) h = absurd (omega arith)
  take_all (suc n) [] h = refl
  take_all (suc n) (x ∷ xs) h = ap (x ∷◌) (take_all n xs (omega arith))

  pub drop-drop : (n m k : ℕ) (xs : List A) → n + m ≡ k → drop m (drop n xs) ≡ drop k xs
  drop-drop zero m k xs e = let e' : m ≡ k = omega arith in ap (λ j. drop j xs) e'
  drop-drop (suc n) zero zero [] e = refl
  drop-drop (suc n) (suc m) zero [] e = absurd (omega arith)
  drop-drop (suc n) zero (suc k) [] e = refl
  drop-drop (suc n) (suc m) (suc k) [] e = refl
  drop-drop (suc n) m zero (x ∷ xs) e = absurd (omega arith)
  drop-drop (suc n) m (suc k) (x ∷ xs) e = drop-drop n m k xs (omega arith)

  pub take-append-drop : (n : ℕ) (xs : List A) → take n xs ++ drop n xs ≡ xs
  take-append-drop zero xs = refl
  take-append-drop (suc n) [] = refl
  take-append-drop (suc n) (x ∷ xs) = ap (x ∷◌) (take-append-drop n xs)

  -- Cutting behind a prefix whose length is known.
  pub take-append :
      (xs ys : List A) (n k : ℕ) → length xs + k ≡ n → take n (xs ++ ys) ≡ xs ++ take k ys
  take-append [] ys n k e = let e' : n ≡ k = omega arith in ap (λ j. take j ys) e'
  take-append (x ∷ xs) ys zero k e = absurd (omega arith)
  take-append (x ∷ xs) ys (suc n) k e = ap (x ∷◌) (take-append xs ys n k (omega arith))

  pub take-append_le : (xs ys : List A) (n : ℕ) → n ≤ length xs → take n (xs ++ ys) ≡ take n xs
  take-append_le xs ys zero h = refl
  take-append_le [] ys (suc n) h = absurd (omega arith)
  take-append_le (x ∷ xs) ys (suc n) h = ap (x ∷◌) (take-append_le xs ys n (omega arith))

  pub drop-append : (xs ys : List A) (n : ℕ) → length xs ≡ n → drop n (xs ++ ys) ≡ ys
  drop-append [] ys zero e = refl
  drop-append [] ys (suc n) e = absurd (omega arith)
  drop-append (x ∷ xs) ys zero e = absurd (omega arith)
  drop-append (x ∷ xs) ys (suc n) e = drop-append xs ys n (omega arith)

  -- What a copied slice leaves behind its start.
  pub drop-overwrite :
      (off : ℕ) (src ys : List A)
      → off + length src ≤ length ys
      → drop off (overwrite off src ys) ≡ src ++ drop (off + length src) ys
  drop-overwrite zero [] ys h = let e : 0 ≡ 0 + 0 = omega arith in ap (λ j. drop j ys) e
  drop-overwrite zero (s ∷ src) [] h = absurd (omega arith)
  drop-overwrite zero (s ∷ src) (y ∷ ys) h =
      let e : suc (0 + length src) ≡ 0 + suc (length src) = omega arith in
      ap (s ∷◌) (drop-overwrite zero src ys (omega arith)) ∙ ap (λ j. s ∷ src ++ drop j (y ∷ ys)) e
  drop-overwrite (suc off) src [] h = absurd (omega arith)
  drop-overwrite (suc off) src (y ∷ ys) h =
      let e : suc (off + length src) ≡ suc off + length src = omega arith in
      drop-overwrite off src ys (omega arith) ∙ ap (λ j. src ++ drop j (y ∷ ys)) e

  -- What a copied slice leaves alone.
  pub get_or-overwrite_lt :
      (off : ℕ) (src ys : List A) (i : ℕ) (d : A)
      → i < off
      → get_or (overwrite off src ys) i d ≡ get_or ys i d
  get_or-overwrite_lt zero src ys i d h = absurd (omega arith)
  get_or-overwrite_lt (suc off) src [] i d h = refl
  get_or-overwrite_lt (suc off) src (y ∷ ys) zero d h = refl
  get_or-overwrite_lt (suc off) src (y ∷ ys) (suc i) d h =
      get_or-overwrite_lt off src ys i d (omega arith)

  pub slice-overwrite_lt :
      (off : ℕ) (src ys : List A) (i n : ℕ)
      → i + n ≤ off
      → slice (overwrite off src ys) i n ≡ slice ys i n
  slice-overwrite_lt off src ys i zero h = refl
  slice-overwrite_lt zero src ys i (suc n) h = absurd (omega arith)
  slice-overwrite_lt (suc off) src [] i (suc n) h = refl
  slice-overwrite_lt (suc off) src (y ∷ ys) zero (suc n) h =
      ap (y ∷◌) (slice-overwrite_lt off src ys zero n (omega arith))
  slice-overwrite_lt (suc off) src (y ∷ ys) (suc i) (suc n) h =
      slice-overwrite_lt off src ys i (suc n) (omega arith)

  pub get_or-drop : (n : ℕ) (xs : List A) (d : A) → get_or xs n d ≡ get_or (drop n xs) 0 d
  get_or-drop zero xs d = refl
  get_or-drop (suc n) [] d = refl
  get_or-drop (suc n) (x ∷ xs) d = get_or-drop n xs d

  pub take-min : (n : ℕ) (xs : List A) → take (min n (length xs)) xs ≡ take n xs
  take-min zero xs = let e : min 0 (length xs) ≡ 0 = omega arith in ap (λ j. take j xs) e
  take-min (suc n) [] = take_all _ [] (omega arith)
  take-min (suc n) (x ∷ xs) =
      let e : min (suc n) (suc (length xs)) ≡ suc (min n (length xs)) = omega arith in
      ap (λ j. take j (x ∷ xs)) e ∙ ap (x ∷◌) (take-min n xs)

  pub nil_of_length : (xs : List A) → length xs ≡ 0 → xs ≡ []
  nil_of_length [] e = refl
  nil_of_length (x ∷ xs) e = absurd (omega arith)

  pub get_or-front :
      (xs ys : List A) (d : A) → 0 < length xs → get_or (xs ++ ys) 0 d ≡ get_or xs 0 d
  get_or-front [] ys d h = absurd (omega arith)
  get_or-front (x ∷ xs) ys d h = refl

  pub append_nil : (xs : List A) → xs ++ [] ≡ xs
  append_nil [] = refl
  append_nil (x ∷ xs) = ap (x ∷◌) (append_nil xs)

  pub append_assoc : (xs ys zs : List A) → (xs ++ ys) ++ zs ≡ xs ++ (ys ++ zs)
  append_assoc [] ys zs = refl
  append_assoc (x ∷ xs) ys zs = ap (x ∷◌) (append_assoc xs ys zs)
