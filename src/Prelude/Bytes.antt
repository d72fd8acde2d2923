-- ===== src/Prelude/Bytes.antt =====
-- Little-endian words, as `to_le_bytes` and `from_le_bytes` lay them out.
use Prim.Native.Nat.{ℕ, ◌+◌, ◌*◌, ◌/◌, ◌%◌, ◌^◌, ◌<◌}
use mathlib.Core.Path.{◌≡◌}
use mathlib.Core.List.{List, [], ◌∷◌}
use native.Mathlib.Omega.{arith}

abbrev pub low_byte : ℕ → ℕ
low_byte x = x % 256

abbrev pub high_byte : ℕ → ℕ
high_byte x = x / 256 % 256

abbrev pub u16_from_le : ℕ → ℕ → ℕ
u16_from_le a b = a + 256 * b

abbrev pub u16_bytes : ℕ → List ℕ
u16_bytes x = low_byte x ∷ high_byte x ∷ []

abbrev pub u32_from_le : ℕ → ℕ → ℕ → ℕ → ℕ
u32_from_le a b c d = a + 256 * b + 65536 * c + 16777216 * d

abbrev pub u32_bytes : ℕ → List ℕ
u32_bytes x = x % 256 ∷ x / 256 % 256 ∷ x / 65536 % 256 ∷ x / 16777216 % 256 ∷ []

pub u16_from_le-bytes : (x : ℕ) → x < 2 ^ 16 → u16_from_le (low_byte x) (high_byte x) ≡ x
u16_from_le-bytes x h = omega arith

pub u32_from_le-bytes :
    (x : ℕ)
    → x < 2 ^ 32
    → u32_from_le (x % 256) (x / 256 % 256) (x / 65536 % 256) (x / 16777216 % 256) ≡ x
u32_from_le-bytes x h = omega arith
