-- ===== src/Prelude/Cuts.antt =====
-- Pieces of lists: what they have in common with the whole, and with a list that was written over.
use Prim.Native.Nat.{ℕ, zero, suc, ◌+◌, ◌≤◌, ◌<◌}
use mathlib.Core.Path.{◌≡◌, refl, ap}
use mathlib.Core.List.{List, [], ◌∷◌}
use native.Mathlib.Omega.{arith}
use sil_os.Prelude.Lists.{length, take, drop, slice, get_or, overwrite}

module _ {ℓ} {A : Type ℓ} where
  pub get_or-take : (n : ℕ) (xs : List A) (d : A) → get_or (take (suc n) xs) 0 d ≡ get_or xs 0 d
  get_or-take n [] d = refl
  get_or-take n (x ∷ xs) d = refl

  get_or-take_lt : (n j : ℕ) (xs : List A) (d : A) → j < n → get_or (take n xs) j d ≡ get_or xs j d
  get_or-take_lt zero j xs d l = absurd (omega arith)
  get_or-take_lt (suc n) j [] d l = refl
  get_or-take_lt (suc n) zero (x ∷ xs) d l = refl
  get_or-take_lt (suc n) (suc j) (x ∷ xs) d l = get_or-take_lt n j xs d (omega arith)

  pub get_or-drop-take :
      (m n j : ℕ) (xs : List A) (d : A)
      → m + j < n
      → get_or (drop m (take n xs)) j d ≡ get_or (drop m xs) j d
  get_or-drop-take zero n j xs d l = get_or-take_lt n j xs d (omega arith)
  get_or-drop-take (suc m) zero j xs d l = absurd (omega arith)
  get_or-drop-take (suc m) (suc n) j [] d l = refl
  get_or-drop-take (suc m) (suc n) j (x ∷ xs) d l = get_or-drop-take m n j xs d (omega arith)

  take-take : (m n : ℕ) (xs : List A) → m ≤ n → take m (take n xs) ≡ take m xs
  take-take zero n xs l = refl
  take-take (suc m) zero xs l = absurd (omega arith)
  take-take (suc m) (suc n) [] l = refl
  take-take (suc m) (suc n) (x ∷ xs) l = ap (x ∷◌) (take-take m n xs (omega arith))

  pub slice-take : (i m n : ℕ) (xs : List A) → i + m ≤ n → slice (take n xs) i m ≡ slice xs i m
  slice-take zero m n xs l = take-take m n xs (omega arith)
  slice-take (suc i) m zero xs l = absurd (omega arith)
  slice-take (suc i) m (suc n) [] l = refl
  slice-take (suc i) m (suc n) (x ∷ xs) l = slice-take i m n xs (omega arith)

  pub drop-overwrite_ge :
      (off : ℕ) (src ys : List A) (i : ℕ)
      → off + length src ≤ i
      → drop i (overwrite off src ys) ≡ drop i ys
  drop-overwrite_ge zero [] ys i h = refl
  drop-overwrite_ge zero (s ∷ src) [] i h = refl
  drop-overwrite_ge zero (s ∷ src) (y ∷ ys) zero h = absurd (omega arith)
  drop-overwrite_ge zero (s ∷ src) (y ∷ ys) (suc i) h =
      drop-overwrite_ge zero src ys i (omega arith)
  drop-overwrite_ge (suc off) src [] i h = refl
  drop-overwrite_ge (suc off) src (y ∷ ys) zero h = absurd (omega arith)
  drop-overwrite_ge (suc off) src (y ∷ ys) (suc i) h = drop-overwrite_ge off src ys i (omega arith)
