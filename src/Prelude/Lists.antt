-- ===== src/Prelude/Lists.antt =====
-- Lists measured by native numbers, and predicates on their elements.
use Prim.Native.Nat.{ℕ, zero, suc, ◌+◌}
use mathlib.Core.Path.{◌≡◌, refl, sym, ap, ◌∙◌}
use mathlib.Core.Logic.{inl, inr}
use mathlib.Core.Bool.{Bool, true, false, not, ◌||◌, ◌&&◌}
use mathlib.Core.List.{List, [], ◌∷◌, ◌++◌}
use native.Mathlib.Omega.{arith}
use platform_backend.Prelude.Tests.{Eq, Bool-cases, ◌==◌, if◌then◌else◌}

module _ {ℓ} {A : Type ℓ} where
  abbrev pub length : List A → ℕ
  length [] = 0
  length (x ∷ xs) = suc (length xs)

  abbrev pub all : (A → Bool) → List A → Bool
  all p [] = true
  all p (x ∷ xs) = p x && all p xs

  abbrev pub select : (A → Bool) → List A → List A
  select p [] = []
  select p (x ∷ xs) = if p x then x ∷ select p xs else select p xs

  abbrev pub replicate : ℕ → A → List A
  replicate zero a = []
  replicate (suc n) a = a ∷ replicate n a

  pub length-append : (xs ys : List A) → length (xs ++ ys) ≡ length xs + length ys
  length-append [] ys = omega arith
  length-append (x ∷ xs) ys = omega (arith, length-append xs ys)

module _ {ℓ κ} {A : Type ℓ} (P : A → Type κ) where
  abbrev pub All : List A → Type κ
  All [] = Unit
  All (x ∷ xs) = P x × All xs

-- `x in xs` of the source.
module _ {A : Type 0} ⦃e : Eq A⦄ where
  abbrev pub contains : A → List A → Bool
  contains a [] = false
  contains a (x ∷ xs) = a == x || contains a xs

  abbrev pub occurrences : A → List A → ℕ
  occurrences a [] = 0
  occurrences a (x ∷ xs) = if a == x then suc (occurrences a xs) else occurrences a xs

  -- No element occurs twice.
  abbrev pub is_distinct : List A → Bool
  is_distinct [] = true
  is_distinct (x ∷ xs) = not (contains x xs) && is_distinct xs

  pub contains-select :
      (p : A → Bool) (a : A) (xs : List A) → contains a (select p xs) ≡ (contains a xs && p a)
  contains-select p a [] = refl
  contains-select p a (x ∷ xs) = elim (Bool-cases (a == x)) [
    | inl same ↦ elim (Bool-cases (p x)) [
      | inl holds ↦ rw (holds, same, sym (at_head same) ∙ holds) refl
      | inr fails ↦
          rw (fails, same, contains-select p a xs, sym (at_head same) ∙ fails) (ground arith)
    ]
    | inr other ↦ elim (Bool-cases (p x)) [
      | inl holds ↦ rw (holds, other, contains-select p a xs) refl
      | inr fails ↦ rw (fails, other) (contains-select p a xs)
    ]
  ]
    where
      at_head : (a == x) ≡ true → p x ≡ p a
      at_head same = ap p (sym ((e.beq_iff a x).0 same))

  pub is_distinct-select :
      (p : A → Bool) (xs : List A) → is_distinct xs ≡ true → is_distinct (select p xs) ≡ true
  is_distinct-select p [] h = refl
  is_distinct-select p (x ∷ xs) h = elim (Bool-cases (p x)) [
    | inl holds ↦ rw holds (ground (arith, contains-select p x xs, is_distinct-select p xs))
    | inr fails ↦ rw fails (ground (arith, is_distinct-select p xs))
  ]
