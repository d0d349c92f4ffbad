-- ===== src/Dict/Same.antt =====
-- Two dicts with the same entries, in whatever order they were inserted.
use platform_backend.Prelude.{◌≢◌, arith, ◌≡◌, refl, ap, Eq}
use platform_backend.Dict.{Dict, get, has, put, pop, is_some}
use platform_backend.Dict.Laws.{get-put, get-put_ne, get-pop}

module _ {ℓ} {K : Type 0} {V : Type ℓ} ⦃e : Eq K⦄ where
  abbrev pub SameEntries : Dict K V → Dict K V → Type ℓ
  SameEntries c d = (k : K) → get k c ≡ get k d

  pub has-SameEntries : (k : K) (c d : Dict K V) → SameEntries c d → has k c ≡ has k d
  unfolding has
  has-SameEntries k c d h = ap is_some (h k)

  pub SameEntries-put :
      (k : K) (v : V) (c d : Dict K V) → SameEntries c d → SameEntries (put k v c) (put k v d)
  SameEntries-put k v c d h j = rw (get-put k j v c, get-put k j v d, h j) refl

  pub SameEntries-pop : (k : K) (c d : Dict K V) → SameEntries c d → SameEntries (pop k c) (pop k d)
  SameEntries-pop k c d h j = rw (get-pop k j c, get-pop k j d, h j) refl

  -- Assignments to different keys commute.
  pub SameEntries-put_comm :
      {k j : K} (v w : V) (d : Dict K V)
      → k ≢ j
      → SameEntries (put k v (put j w d)) (put j w (put k v d))
  SameEntries-put_comm {k} {j} v w d apart i = ground (
    arith,
    get-put k i v (put j w d),
    get-put j i w d,
    get-put j i w (put k v d),
    get-put k i v d,
    e.beq_iff k i,
    e.beq_iff j i,
  )

  pub has-put_ne : {k j : K} (v : V) (d : Dict K V) → k ≢ j → has j (put k v d) ≡ has j d
  unfolding has
  has-put_ne v d apart = ap is_some (get-put_ne v d apart)
