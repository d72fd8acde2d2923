-- ===== src/Prelude/Text.antt =====
-- Texts as lists of code points.
use Prim.Native.Char.{code}
use Prim.Native.String.{String}
use Prim.Native.Nat.{ℕ, zero, suc, ◌+◌, ◌/◌, ◌%◌}
use mathlib.Core.List.{List, [], ◌∷◌, ◌++◌}
use sil_os.Prelude.Tests.{ltb, if◌then◌else◌}

-- The code points of a literal. `String` has its own `[]` and `∷`.
abbrev pub codes : String → List ℕ
codes String.[] = []
codes (String.◌∷◌ c s) = code c ∷ codes s

-- `xs.join(sep)`
abbrev pub join_by : List ℕ → List (List ℕ) → List ℕ
join_by sep [] = []
join_by sep (x ∷ []) = x
join_by sep (x ∷ y ∷ xs) = x ++ (sep ++ join_by sep (y ∷ xs))

-- The decimal digits of a number, with more rounds than it has digits.
abbrev pub digits : ℕ → ℕ → List ℕ
digits zero n = []
digits (suc f) n =
    let front = digits f (n / 10) in
    if ltb n 10 then (n + b'0') ∷ [] else front ++ (n % 10 + b'0') ∷ []

abbrev pub show_nat : ℕ → List ℕ
show_nat n = digits (suc n) n
