-- ===== src/Uc/Invariant.antt =====
-- The invariant of the user store, and that it holds of the empty store and through creation and deletion.
use mathlib.Core.Path.{subst}
use platform_backend.Prelude.{
  ℕ, String, ◌≡◌, refl, inl, inr, ap, ◌∙◌, none, some, string_eq, Bool-cases, Option-cases,
}
use platform_backend.Dict.{keys, get, has, put, pop}
use platform_backend.Dict.Laws.{
  IsDistinct, get-put_self, get-put_ne, get-put_cases, get-pop_ne, get-pop_cases, has_iff,
  IsDistinct-put, IsDistinct-pop,
}
use platform_backend.Core.ModelUtils.{Value, str, value_eq}
use platform_backend.Core.ModelUtils.Conforms.{IsInstance, conforms}
use platform_backend.UcApi.{
  UserResponse, UserField, field_name, attr, UserCreate, user_response_fields, str_type,
  datetime_type,
}
use platform_backend.Uc.{Store, empty, create_user, delete_user, delete_found, user_id_of, new_user}

abbrev pub IsUserResponse : UserResponse → Type 0
IsUserResponse = IsInstance user_response_fields field_name attr

-- The index has an entry for each user's name, and only those; each user is stored under its own
-- id and is typed as the contract says; no id is listed twice.
pub record IsConsistent (s : Store) : Type 0 where
  pub distinct : IsDistinct (keys s.users)
  pub sound :
      (u : Value) (id : String)
      → get u s.users_by_username ≡ some id
      → (user : UserResponse) × (get id s.users ≡ some user) × (user.username ≡ u)
  pub complete :
      (id : String) (user : UserResponse)
      → get id s.users ≡ some user
      → get user.username s.users_by_username ≡ some id
  pub own_id : (id : String) (user : UserResponse) → get id s.users ≡ some user → user.id ≡ str id
  pub typed : (id : String) (user : UserResponse) → get id s.users ≡ some user → IsUserResponse user

pub IsConsistent-empty : IsConsistent empty
unfolding get keys
IsConsistent-empty = record {
  distinct = tt;
  sound = λ u id h. cc;
  complete = λ id user h. cc;
  own_id = λ id user h. cc;
  typed = λ id user h. cc;
}

pub new_user-IsUserResponse :
    (p : UserCreate) (now : ℕ) (uuid : String) → IsUserResponse (new_user p now uuid)
unfolding get conforms
new_user-IsUserResponse p now uuid UserField.id = (str_type, refl, refl)
new_user-IsUserResponse p now uuid UserField.username = (str_type, refl, refl)
new_user-IsUserResponse p now uuid UserField.email = (str_type, refl, refl)
new_user-IsUserResponse p now uuid UserField.status = (str_type, refl, refl)
new_user-IsUserResponse p now uuid UserField.created_at = (datetime_type, refl, refl)
new_user-IsUserResponse p now uuid UserField.updated_at = (datetime_type, refl, refl)

-- A user under a new id and a new name.
insert-IsConsistent :
    (s : Store) (id : String) (user : UserResponse)
    → IsConsistent s
    → get id s.users ≡ none
    → get user.username s.users_by_username ≡ none
    → user.id ≡ str id
    → IsUserResponse user
    → IsConsistent (record {
      users = put id user s.users;
      users_by_username = put user.username id s.users_by_username;
    })
insert-IsConsistent s id user h fresh free own fits = record {
  distinct = IsDistinct-put id user s.users h.distinct;
  sound = λ u j e. elim (get-put_cases user.username u id s.users_by_username e) [
    | inl (same, here) ↦ (user, rw (← here) (get-put_self id user s.users), same)
    | inr (other, old) ↦
        let (w, stored, named) = h.sound u j old in
        (w, get-put_ne user s.users (λ p. cc (p, fresh, stored)) ∙ stored, named)
  ];
  complete = λ j w e. elim (get-put_cases id j user s.users e) [
    | inl (same, here) ↦
        rw (← here) (get-put_self user.username id s.users_by_username ∙ ap some same)
    | inr (other, old) ↦
        let listed = h.complete j w old in
        get-put_ne id s.users_by_username (λ p. cc (p, free, listed)) ∙ listed
  ];
  own_id = λ j w e. elim (get-put_cases id j user s.users e) [
    | inl (same, here) ↦ rw (← here, ← same) own
    | inr (other, old) ↦ h.own_id j w old
  ];
  typed = λ j w e. elim (get-put_cases id j user s.users e) [
    | inl (same, here) ↦ subst IsUserResponse here fits
    | inr (other, old) ↦ h.typed j w old
  ];
}

-- Creating a user under a new id keeps the store consistent, whether the name is taken or not.
pub create_user-IsConsistent :
    (payload : UserCreate) (now : ℕ) (uuid : String) (s : Store)
    → get (user_id_of uuid) s.users ≡ none
    → IsConsistent s
    → IsConsistent (create_user payload now uuid s).1
unfolding create_user
create_user-IsConsistent payload now uuid s fresh h =
    elim (Bool-cases (has (str payload.username) s.users_by_username)) [
      | inl taken ↦ rw taken h
      | inr free ↦ rw free (
          insert-IsConsistent s (user_id_of uuid) (new_user payload now uuid) h fresh
            ((has_iff _ _).0 free) refl (new_user-IsUserResponse payload now uuid))
    ]

remove-IsConsistent :
    (s : Store) (id : String) (user : UserResponse)
    → IsConsistent s
    → get id s.users ≡ some user
    → IsConsistent (record {
      users = pop id s.users;
      users_by_username = pop user.username s.users_by_username;
    })
remove-IsConsistent s id user h stored = record {
  distinct = IsDistinct-pop id s.users h.distinct;
  sound = λ u j e.
      let (other, old) = get-pop_cases user.username u s.users_by_username e in
      let (w, there, named) = h.sound u j old in
      (w, get-pop_ne s.users (λ p. other (cc (p, stored, there, named))) ∙ there, named);
  complete = λ j w e.
      let (other, old) = get-pop_cases id j s.users e in
      let listed = h.complete j w old in
      get-pop_ne s.users_by_username (λ p. other (cc (p, listed, h.complete id user stored)))
      ∙ listed;
  own_id = λ j w e. h.own_id j w (get-pop_cases id j s.users e).1;
  typed = λ j w e. h.typed j w (get-pop_cases id j s.users e).1;
}

-- Deleting a user keeps the store consistent, whether the id is there or not.
pub delete_user-IsConsistent :
    (user_id : String) (s : Store) → IsConsistent s → IsConsistent (delete_user user_id s).1
unfolding delete_user
delete_user-IsConsistent user_id s h = elim (Option-cases (get user_id s.users)) [
  | inl missing ↦ rw (missing, delete_found) h
  | inr (user, stored) ↦ rw (stored, delete_found) (remove-IsConsistent s user_id user h stored)
]
