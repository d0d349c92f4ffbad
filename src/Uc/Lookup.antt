-- ===== src/Uc/Lookup.antt =====
-- The username index answers as a search of all users would.
use mathlib.Core.List.{Memᴰ}
use platform_backend.Prelude.{
  List, String, ◌≡◌, ◌↔◌, inl, inr, refl, sym, ◌∙◌, arith, some, Option-cases, some_inj, string_eq,
  ap,
}
use platform_backend.Dict.{get, values}
use platform_backend.Dict.Listing.{listed_iff}
use platform_backend.Core.ModelUtils.{str, value_eq}
use platform_backend.UcApi.{UserResponse}
use platform_backend.Uc.{Store, ok, found, found_by_id, get_user, get_user_by_username, list_users}
use platform_backend.Uc.Invariant.{IsConsistent}

pub ok_inj : {A : Type 0} {a b : A} → ok a ≡ ok b → a ≡ b
ok_inj h = cc

pub get_user_iff :
    (id : String) (user : UserResponse) (s : Store)
    → (get_user id s ≡ ok user) ↔ (get id s.users ≡ some user)
unfolding get_user
get_user_iff id user s = (λ h. ground arith, λ h. rw (h, found))

module _ (s : Store) (h : IsConsistent s) where
  -- In a consistent store a lookup by name returns a user exactly if that user is stored, under
  -- some id, with that name.
  pub get_user_by_username_iff :
      (name : String) (user : UserResponse)
      → (get_user_by_username name s ≡ ok user)
        ↔ ((id : String) × (get_user id s ≡ ok user) × (user.username ≡ str name))
  unfolding get_user_by_username
  get_user_by_username_iff name user = (to, from)
    where
      to :
          found_by_id s (get (str name) s.users_by_username) ≡ ok user
          → (id : String) × (get_user id s ≡ ok user) × (user.username ≡ str name)
      to e = elim (Option-cases (get (str name) s.users_by_username)) [
        | inl missing ↦ cc (rw missing at e)
        | inr (id, listed) ↦
            let (w, stored, named) = h.sound (str name) id listed in
            let same : w ≡ user = ok_inj (rw (listed, stored, found) at e) in
            (id, (get_user_iff id user s).1 (cc (stored, same)), cc (named, same))
      ]

      from :
          (id : String) × (get_user id s ≡ ok user) × (user.username ≡ str name)
          → found_by_id s (get (str name) s.users_by_username) ≡ ok user
      from (id, returned, named) =
          let stored = (get_user_iff id user s).0 returned in
          rw (← named, h.complete id user stored, stored, found) refl

  -- In a consistent store no two ids have users of the same name.
  pub username_unique :
      (i j : String) (u w : UserResponse)
      → get_user i s ≡ ok u
      → get_user j s ≡ ok w
      → u.username ≡ w.username
      → i ≡ j
  username_unique i j u w p q same = some_inj (
      sym (h.complete i u ((get_user_iff i u s).0 p))
      ∙ ap (λ n. get n s.users_by_username) same
      ∙ h.complete j w ((get_user_iff j w s).0 q))

  -- In a consistent store the listing succeeds, and lists exactly the users that a lookup by some id
  -- returns.
  pub list_users-lists :
      (users : List UserResponse) × (list_users s ≡ ok users)
      × ((user : UserResponse) → Memᴰ user users ↔ ((id : String) × (get_user id s ≡ ok user)))
  unfolding list_users
  list_users-lists = (
    values s.users,
    refl,
    λ user. (
      λ m.
          let (id, stored) = (listed_iff s.users user h.distinct).0 m in
          (id, (get_user_iff id user s).1 stored),
      λ (id, returned).
          (listed_iff s.users user h.distinct).1 (id, (get_user_iff id user s).0 returned),
    ),
  )
