-- ===== src/Prelude/Text.antt =====
-- Texts: `s.upper()` of the letters of ASCII, `s[:n]`, and `bool(s)`.
use Prim.Native.Nat.{ℕ, zero, suc}
use Prim.Native.Char.{Char, code}
use Prim.Native.String.{String, [], ◌∷◌}
use mathlib.Core.Path.{◌≡◌, refl}
use mathlib.Core.Bool.{Bool, true, false}
use platform_backend.Prelude.Tests.{nat_beq, if◌then◌else◌}

translate : String → String → Char → Char
translate [] bs c = c
translate (a ∷ as') [] c = c
translate (a ∷ as') (b ∷ bs) c = if nat_beq (code a) (code c) then b else translate as' bs c

unfoldable pub upper : String → String
unfolding translate
upper [] = []
upper (c ∷ s) = translate "abcdefghijklmnopqrstuvwxyz" "ABCDEFGHIJKLMNOPQRSTUVWXYZ" c ∷ upper s

abbrev pub prefix : ℕ → String → String
prefix zero s = []
prefix (suc n) [] = []
prefix (suc n) (c ∷ s) = c ∷ prefix n s

abbrev pub is_empty : String → Bool
is_empty [] = true
is_empty (c ∷ s) = false

upper_runs : upper "Get-1" ≡ "GET-1"
unfolding upper
upper_runs = refl
