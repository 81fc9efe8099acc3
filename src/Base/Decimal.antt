-- ===== src/Base/Decimal.antt =====
-- `%d` of package `fmt` for a natural number: its decimal digits.
use mockly.Base.Text.{Bytes}
use mockly.Base.Tests.{ltb}
use Prim.Native.Nat.{ℕ, zero, suc, ◌+◌, ◌/◌, ◌%◌}
use mathlib.Core.Bool.{true, false}
use mathlib.Core.List.{[], ◌∷◌}

-- A number has fewer digits than its value plus one, so `suc n` is enough fuel for `n`.
unfoldable pub digits : ℕ → ℕ → Bytes → Bytes
digits zero n out = out
digits (suc f) n out = elim (ltb n 10) [
  | true ↦ (b'0' + n) ∷ out
  | false ↦ digits f (n / 10) ((b'0' + n % 10) ∷ out)
]

unfoldable pub decimal : ℕ → Bytes
unfolding digits
decimal n = digits (suc n) n []
