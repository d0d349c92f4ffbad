-- ===== src/Dict.antt =====
-- Python's `dict`, as the source uses it: an association list in the order of insertion.
-- `put` is `d[k] = v` (an old key keeps its place), `pop` is `d.pop(k, None)` and `del d[k]`,
-- `get` is `d.get(k)`, `has` is `k in d`, and `merge` is `{**a, **b}`.
pub mod Laws
pub mod Listing
pub mod Same
use platform_backend.Prelude.{
  Bool, true, false, Option, none, some, List, [], ◌∷◌, Eq, ◌==◌, if◌then◌else◌,
}

abbrev pub Dict {ℓ} : Type 0 → Type ℓ → Type ℓ
Dict K V = List (K × V)

abbrev pub is_some {ℓ} : {A : Type ℓ} → Option A → Bool
is_some none = false
is_some (some a) = true

module _ {ℓ} {K : Type 0} {V : Type ℓ} where
  unfoldable pub keys : Dict K V → List K
  keys [] = []
  keys ((k, v) ∷ d) = k ∷ keys d

  unfoldable pub values : Dict K V → List V
  values [] = []
  values ((k, v) ∷ d) = v ∷ values d

module _ {ℓ} {K : Type 0} {V : Type ℓ} ⦃e : Eq K⦄ where
  unfoldable pub get : K → Dict K V → Option V
  get k [] = none
  get k ((j, v) ∷ d) = if j == k then some v else get k d

  unfoldable pub has : K → Dict K V → Bool
  unfolding get
  has k d = is_some (get k d)

  unfoldable pub put : K → V → Dict K V → Dict K V
  put k v [] = (k, v) ∷ []
  put k v ((j, w) ∷ d) = if j == k then (j, v) ∷ d else (j, w) ∷ put k v d

  unfoldable pub pop : K → Dict K V → Dict K V
  pop k [] = []
  pop k ((j, v) ∷ d) = let rest = pop k d in if j == k then rest else (j, v) ∷ rest

  unfoldable pub merge : Dict K V → Dict K V → Dict K V
  unfolding put
  merge a [] = a
  merge a ((k, v) ∷ b) = merge (put k v a) b
