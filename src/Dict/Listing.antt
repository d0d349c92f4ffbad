-- ===== src/Dict/Listing.antt =====
-- What `d.values()` lists.
use mathlib.Core.List.{Memᴰ}
use mathlib.Core.List.Memᴰ
use platform_backend.Prelude.{
  ◌≡◌, ◌↔◌, refl, sym, ◌∙◌, some, [], ◌∷◌, Eq, ◌==◌, Bool-cases, inl, inr, none-ne-some, some_inj,
  beq_self,
}
use platform_backend.Dict.{Dict, keys, values, get}
use platform_backend.Dict.Laws.{IsDistinct, get_of_fresh}

module _ {K V : Type 0} ⦃e : Eq K⦄ where
  listed_of_got : (k : K) (d : Dict K V) {v : V} → get k d ≡ some v → Memᴰ v (values d)
  unfolding get values
  listed_of_got k [] h = cc
  listed_of_got k ((j, w) ∷ d) h = elim (Bool-cases (j == k)) [
    | inl same ↦ Memᴰ.head (sym (some_inj (rw same at h)))
    | inr other ↦ Memᴰ.tail (listed_of_got k d (rw other at h))
  ]

  got_of_listed :
      (d : Dict K V) {v : V}
      → IsDistinct (keys d)
      → Memᴰ v (values d)
      → (k : K) × (get k d ≡ some v)
  unfolding get values keys
  got_of_listed [] distinct m = absurd (Memᴰ.not-nil m)
  got_of_listed ((j, w) ∷ d) (fresh, distinct) (Memᴰ.head same) = (j, rw (beq_self j, same) refl)
  got_of_listed ((j, w) ∷ d) (fresh, distinct) (Memᴰ.tail m) =
      let (k, got) = got_of_listed d distinct m in
      (
        k,
        elim (Bool-cases (j == k)) [
          | inl same ↦
              absurd (
                none-ne-some
                  (sym (get_of_fresh j d fresh) ∙ rw (← ((e.beq_iff j k).0 same)) at got))
          | inr other ↦ rw other got
        ],
      )

  -- Where no key occurs twice, the values are those that some key has.
  pub listed_iff :
      (d : Dict K V) (v : V)
      → IsDistinct (keys d)
      → Memᴰ v (values d) ↔ ((k : K) × (get k d ≡ some v))
  listed_iff d v distinct = (got_of_listed d distinct, λ (k, got). listed_of_got k d got)
