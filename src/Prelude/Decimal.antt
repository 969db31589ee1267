-- ===== src/Prelude/Decimal.antt =====
-- `to_string` of a number.
use Prim.Native.Nat.{ℕ, zero, suc, ◌+◌, ◌%◌, ◌/◌}
use ramo.Prelude.Tests.{ltb}
use ramo.Prelude.Text.{Text}
use mathlib.Core.Bool.{true, false}
use mathlib.Core.List.{◌∷◌, []}

-- The digits, the last first, in front of those that are found. `fuel` counts the digits.
unfoldable pub digits_from : ℕ → ℕ → Text → Text
digits_from zero n found = found
digits_from (suc fuel) n found = elim (ltb n 10) [
  | true ↦ (b'0' + n) ∷ found
  | false ↦ digits_from fuel (n / 10) ((b'0' + n % 10) ∷ found)
]

-- A number below 2 ^ 64 has twenty digits at most.
unfoldable pub decimal : ℕ → Text
unfolding digits_from
decimal n = digits_from 20 n []
