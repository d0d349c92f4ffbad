-- ===== src/Prelude/Decimal.antt =====
-- `str(n)` of a natural number: its decimal digits, the most significant one first.
use Prim.Native.Nat.{ℕ, zero, suc, ◌+◌, ◌/◌, ◌%◌}
use Prim.Native.String.{String, ◌++◌}
use mathlib.Core.Path.{◌≡◌, refl}
use mathlib.Core.Bool.{true, false}
use mathlib.Core.List.{List, [], ◌∷◌}
use platform_backend.Prelude.Tests.{ltb}

digit_of : List String → ℕ → String
digit_of [] n = ""
digit_of (d ∷ ds) zero = d
digit_of (d ∷ ds) (suc n) = digit_of ds n

abbrev digit : ℕ → String
digit n = digit_of ("0" ∷ "1" ∷ "2" ∷ "3" ∷ "4" ∷ "5" ∷ "6" ∷ "7" ∷ "8" ∷ "9" ∷ []) n

digits : ℕ → ℕ → String → String
digits zero n out = out
digits (suc fuel) n out = elim (ltb n 10) [
  | true ↦ digit n ++ out
  | false ↦ digits fuel (n / 10) (digit (n % 10) ++ out)
]

-- A number has at most as many digits as its value plus one.
unfoldable pub str_of_nat : ℕ → String
unfolding digits digit_of
str_of_nat n = digits (n + 1) n ""

str_of_nat_runs : str_of_nat 503 ≡ "503"
unfolding str_of_nat
str_of_nat_runs = refl
