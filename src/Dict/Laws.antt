-- ===== src/Dict/Laws.antt =====
-- The laws of `dict` that its clients use; its operations stay shut for them.
use platform_backend.Prelude.{
  ◌≢◌, ◌⊎◌, ◌↔◌, beq_of_ne, ne_of_beq, none-ne-some, some_inj, ◌≡◌, refl, true, false, ◌||◌, none,
  some, List, [], ◌∷◌, arith, Eq, ◌==◌, beq_self, if◌then◌else◌, contains, Bool-cases, inl, inr,
}
use platform_backend.Dict.{Dict, keys, get, has, put, pop, merge}

-- No key occurs twice.
abbrev pub IsDistinct : {K : Type 0} ⦃e : Eq K⦄ → List K → Type 0
IsDistinct [] = Unit
IsDistinct (k ∷ ks) = (contains k ks ≡ false) × IsDistinct ks

module _ {ℓ} {K : Type 0} {V : Type ℓ} ⦃e : Eq K⦄ where
  pub get-put :
      (k j : K) (v : V) (d : Dict K V) → get j (put k v d) ≡ (if k == j then some v else get j d)
  unfolding get put
  get-put k j v [] = refl
  get-put k j v ((i, w) ∷ d) =
      ground (arith, e.beq_iff k j, e.beq_iff i k, e.beq_iff i j, get-put k j v d)

  pub get-pop : (k j : K) (d : Dict K V) → get j (pop k d) ≡ (if k == j then none else get j d)
  unfolding get pop
  get-pop k j [] = ground arith
  get-pop k j ((i, w) ∷ d) =
      ground (arith, e.beq_iff k j, e.beq_iff i k, e.beq_iff i j, get-pop k j d)

  pub get-put_self : (k : K) (v : V) (d : Dict K V) → get k (put k v d) ≡ some v
  get-put_self k v d = simp (get-put, beq_self)

  pub has-eq-contains : (k : K) (d : Dict K V) → has k d ≡ contains k (keys d)
  unfolding has get keys
  has-eq-contains k [] = refl
  has-eq-contains k ((j, v) ∷ d) = ground (arith, e.beq_iff k j, e.beq_iff j k, has-eq-contains k d)

  pub get_of_fresh : (k : K) (d : Dict K V) → contains k (keys d) ≡ false → get k d ≡ none
  unfolding get keys
  get_of_fresh k [] h = refl
  get_of_fresh k ((j, v) ∷ d) h = ground (arith, e.beq_iff k j, e.beq_iff j k, get_of_fresh k d)

  pub get-merge :
      (k : K) (a b : Dict K V)
      → IsDistinct (keys b)
      → get k (merge a b) ≡ (if has k b then get k b else get k a)
  unfolding get merge has keys
  get-merge k a [] h = refl
  get-merge k a ((j, v) ∷ b) (fresh, h) =
      ground
        (arith, get-merge k (put j v a) b h, get-put j k v a, has-eq-contains j b, e.beq_iff j k)

  contains-keys-put :
      (k j : K) (v : V) (d : Dict K V)
      → contains j (keys (put k v d)) ≡ (j == k || contains j (keys d))
  unfolding put keys
  contains-keys-put k j v [] = ground arith
  contains-keys-put k j v ((i, w) ∷ d) =
      ground (arith, e.beq_iff i k, e.beq_iff j i, e.beq_iff j k, contains-keys-put k j v d)

  pub IsDistinct-put :
      (k : K) (v : V) (d : Dict K V) → IsDistinct (keys d) → IsDistinct (keys (put k v d))
  unfolding put keys
  IsDistinct-put k v [] h = (refl, tt)
  IsDistinct-put k v ((i, w) ∷ d) (fresh, h) = elim (Bool-cases (i == k)) [
    | inl same ↦ rw same (fresh, h)
    | inr other ↦ rw other (rw (contains-keys-put k i v d, other) fresh, IsDistinct-put k v d h)
  ]

  contains-keys-pop :
      (k j : K) (d : Dict K V) → contains j (keys d) ≡ false → contains j (keys (pop k d)) ≡ false
  unfolding pop keys
  contains-keys-pop k j [] h = refl
  contains-keys-pop k j ((i, w) ∷ d) h = ground (arith, contains-keys-pop k j d)

  pub IsDistinct-pop : (k : K) (d : Dict K V) → IsDistinct (keys d) → IsDistinct (keys (pop k d))
  unfolding pop keys
  IsDistinct-pop k [] h = tt
  IsDistinct-pop k ((i, w) ∷ d) (fresh, h) = elim (Bool-cases (i == k)) [
    | inl same ↦ rw same (IsDistinct-pop k d h)
    | inr other ↦ rw other (contains-keys-pop k i d fresh, IsDistinct-pop k d h)
  ]

-- The same laws without Boolean tests.
module _ {ℓ} {K : Type 0} {V : Type ℓ} ⦃e : Eq K⦄ where
  pub get-put_ne : {k j : K} (v : V) (d : Dict K V) → k ≢ j → get j (put k v d) ≡ get j d
  get-put_ne {k} {j} v d h = rw (get-put k j v d, beq_of_ne k j h)

  pub get-put_cases :
      (k j : K) (v : V) (d : Dict K V) {w : V}
      → get j (put k v d) ≡ some w
      → ((k ≡ j) × (v ≡ w)) ⊎ ((k ≢ j) × (get j d ≡ some w))
  get-put_cases k j v d h = elim (Bool-cases (k == j)) [
    | inl same ↦ inl ((e.beq_iff k j).0 same, some_inj (rw (get-put k j v d, same) at h))
    | inr other ↦ inr (ne_of_beq k j other, rw (get-put k j v d, other) at h)
  ]

  pub get-pop_self : (k : K) (d : Dict K V) → get k (pop k d) ≡ none
  get-pop_self k d = rw (get-pop k k d, beq_self k)

  pub get-pop_ne : {k j : K} (d : Dict K V) → k ≢ j → get j (pop k d) ≡ get j d
  get-pop_ne {k} {j} d h = rw (get-pop k j d, beq_of_ne k j h)

  pub get-pop_cases :
      (k j : K) (d : Dict K V) {w : V} → get j (pop k d) ≡ some w → (k ≢ j) × (get j d ≡ some w)
  get-pop_cases k j d h = elim (Bool-cases (k == j)) [
    | inl same ↦ absurd (none-ne-some (rw (get-pop k j d, same) at h))
    | inr other ↦ (ne_of_beq k j other, rw (get-pop k j d, other) at h)
  ]

  pub has_iff : (k : K) (d : Dict K V) → (has k d ≡ false) ↔ (get k d ≡ none)
  unfolding has
  has_iff k d = ground arith

  pub has_of_get : (k : K) (v : V) (d : Dict K V) → get k d ≡ some v → has k d ≡ true
  unfolding has
  has_of_get k v d h = rw h refl

  pub has-put_self : (k : K) (v : V) (d : Dict K V) → has k (put k v d) ≡ true
  unfolding has
  has-put_self k v d = rw (get-put_self k v d) refl
