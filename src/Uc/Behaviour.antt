-- ===== src/Uc/Behaviour.antt =====
-- What a client sees after creating, renaming or deleting a user, and after an error.
use platform_backend.Prelude.{
  ℕ, String, ◌≡◌, ◌≢◌, ◌↔◌, ◌⊎◌, inl, inr, Bool-cases, refl, sym, ◌∙◌, ap, none, some, Option-cases,
  none-ne-some, string_eq,
}
use platform_backend.Dict.{get, has}
use platform_backend.Dict.Laws.{has_iff, get-put_self, get-put_ne, get-pop_self, get-pop_ne}
use platform_backend.Core.ModelUtils.{str, value_eq}
use platform_backend.UcApi.{UserResponse, UserCreate}
use platform_backend.Uc.{
  Store, Reply, ok, not_found, conflict, found, get_user, get_user_by_username, create_user,
  user_id_of, new_user, delete_user, delete_found,
}
use platform_backend.Uc.Invariant.{IsConsistent}
use platform_backend.Uc.Lookup.{get_user_iff}

-- The answer to a lookup by name depends on the index entry and on the user that it points to.
pub by_username_of_same :
    (name : String) (s t : Store)
    → get (str name) t.users_by_username ≡ get (str name) s.users_by_username
    → ((id : String)
        → get (str name) s.users_by_username ≡ some id
        → get id t.users ≡ get id s.users)
    → get_user_by_username name t ≡ get_user_by_username name s
unfolding get_user_by_username
by_username_of_same name s t e h = elim (Option-cases (get (str name) s.users_by_username)) [
  | inl missing ↦ rw (e, missing) refl
  | inr (id, listed) ↦ rw (e, listed, h id listed) refl
]

pub by_username_found :
    (name id : String) (user : UserResponse) (s : Store)
    → get (str name) s.users_by_username ≡ some id
    → get id s.users ≡ some user
    → get_user_by_username name s ≡ ok user
unfolding get_user_by_username
by_username_found name id user s listed stored = rw (listed, stored, found) refl

pub by_username_missing :
    (name : String) (s : Store)
    → get (str name) s.users_by_username ≡ none
    → get_user_by_username name s ≡ not_found
unfolding get_user_by_username
by_username_missing name s missing = rw missing refl

pub str_ne : {a b : String} → a ≢ b → str a ≢ str b
str_ne h p = h (cc p)

module _ (payload : UserCreate) (now : ℕ) (uuid : String) (s : Store) where
  abbrev created : Reply UserResponse × Store
  created = create_user payload now uuid s

  -- In a consistent store, with a name that the index does not hold and a new id, creation returns the
  -- new user; the id and the name then find it, and every other id and every other name finds what it
  -- found before.
  pub create_user-creates :
      IsConsistent s
      → get (user_id_of uuid) s.users ≡ none
      → get (str payload.username) s.users_by_username ≡ none
      → (created.0 ≡ ok (new_user payload now uuid))
        × (get_user (user_id_of uuid) created.1 ≡ ok (new_user payload now uuid))
        × (get_user_by_username payload.username created.1 ≡ ok (new_user payload now uuid))
        × ((id : String) → user_id_of uuid ≢ id → get_user id created.1 ≡ get_user id s)
        × ((name : String)
            → payload.username ≢ name
            → get_user_by_username name created.1 ≡ get_user_by_username name s)
  unfolding create_user get_user
  create_user-creates h fresh free = rw ((has_iff _ _).1 free) (
    refl,
    rw (get-put_self (user_id_of uuid) (new_user payload now uuid) s.users, found) refl,
    by_username_found payload.username (user_id_of uuid) (new_user payload now uuid) _
        (get-put_self (str payload.username) (user_id_of uuid) s.users_by_username)
        (get-put_self (user_id_of uuid) (new_user payload now uuid) s.users),
    (λ id other. ap found (get-put_ne (new_user payload now uuid) s.users other)),
    λ name other.
        by_username_of_same name s _ (get-put_ne _ s.users_by_username (str_ne other)) λ id listed.
          let (w, stored, named) = h.sound (str name) id listed in
          get-put_ne _ s.users (λ p. none-ne-some (sym fresh ∙ ap (λ i. get i s.users) p ∙ stored)),
  )

  -- In a consistent store creation answers 409 exactly if a stored user has the name already. It then
  -- changes nothing, and otherwise it answers with the new user.
  pub create_user-conflict_iff :
      IsConsistent s
      → ((created.0 ≡ conflict) ↔ (
          (id : String) × (user : UserResponse) × (get_user id s ≡ ok user)
          × (user.username ≡ str payload.username)))
        × ((created ≡ (conflict, s)) ⊎ (created.0 ≡ ok (new_user payload now uuid)))
  unfolding create_user has
  create_user-conflict_iff h = ((to, from), outcome)
    where
      to :
          created.0 ≡ conflict
          → (id : String) × (user : UserResponse) × (get_user id s ≡ ok user)
            × (user.username ≡ str payload.username)
      to e = elim (Option-cases (get (str payload.username) s.users_by_username)) [
        | inl free ↦ cc (rw free at e)
        | inr (id, listed) ↦
            let (user, stored, named) = h.sound (str payload.username) id listed in
            (id, user, (get_user_iff id user s).1 stored, named)
      ]

      from :
          (id : String) × (user : UserResponse) × (get_user id s ≡ ok user)
            × (user.username ≡ str payload.username)
          → created.0 ≡ conflict
      from (id, user, returned, named) =
          rw
            (ap (λ n. get n s.users_by_username) (sym named)
              ∙ h.complete id user ((get_user_iff id user s).0 returned))
            refl

      outcome : (created ≡ (conflict, s)) ⊎ (created.0 ≡ ok (new_user payload now uuid))
      outcome = elim (Bool-cases (has (str payload.username) s.users_by_username)) [
        | inl taken ↦ inl (rw taken refl)
        | inr free ↦ inr (rw free refl)
      ]

module _ (user_id : String) (s : Store) where
  -- In a consistent store the deletion of a stored user succeeds; its id and its name then find no
  -- user, and every other id and every other name finds what it found before.
  pub delete_user-deletes :
      (user : UserResponse) (name : String)
      → IsConsistent s
      → get_user user_id s ≡ ok user
      → user.username ≡ str name
      → ((delete_user user_id s).0 ≡ ok tt)
        × (get_user user_id (delete_user user_id s).1 ≡ not_found)
        × (get_user_by_username name (delete_user user_id s).1 ≡ not_found)
        × ((id : String) → user_id ≢ id → get_user id (delete_user user_id s).1 ≡ get_user id s)
        × ((other : String)
            → name ≢ other
            → get_user_by_username other (delete_user user_id s).1 ≡ get_user_by_username other s)
  delete_user-deletes user name h returned named =
      let stored = (get_user_iff user_id user s).0 returned in
      unfold delete_user get_user in
      rw (stored, delete_found, named)
        (
          refl,
          rw (get-pop_self user_id s.users) refl,
          by_username_missing name _ (get-pop_self (str name) s.users_by_username),
          (λ id other. ap found (get-pop_ne s.users other)),
          λ other differs.
              by_username_of_same other s _ (get-pop_ne s.users_by_username (str_ne differs))
                λ id listed.
                  let (w, there, called) = h.sound (str other) id listed in
                  get-pop_ne s.users (λ p. str_ne differs (cc (p, there, stored, called, named))),
        )
