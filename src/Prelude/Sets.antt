-- ===== src/Prelude/Sets.antt =====
-- A type with an equality test is a set.
use mathlib.Core.HLevel.{hedberg}
use mathlib.Core.Logic.{inl, inr}
use platform_backend.Prelude.Tests.{Eq, ◌==◌, Bool-cases, ne_of_beq}

pub Eq-set : {A : Type 0} ⦃e : Eq A⦄ → IsSet A
Eq-set ⦃e⦄ = hedberg (λ a b. elim (Bool-cases (a == b)) [
  | inl same ↦ yes ((e.beq_iff a b).0 same)
  | inr other ↦ no (ne_of_beq a b other)
])
