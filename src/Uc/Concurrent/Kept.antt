-- ===== src/Uc/Concurrent/Kept.antt =====
-- What a request leaves as it was: every user but the one that it is aimed at.
use platform_backend.Prelude.{
  ℕ, String, ◌≡◌, ◌≢◌, refl, ap, ◌∙◌, inl, inr, Option, none, some, string_eq, nat_eq, Option-cases,
  Bool-cases,
}
use platform_backend.Dict.{Dict, get, has}
use platform_backend.Dict.Laws.{get-put_ne, get-pop_ne}
use platform_backend.Core.ModelUtils.{Value, str, value_eq, partial_update_dict}
use platform_backend.Core.ModelUtils.Conforms.{ModelCopy}
use platform_backend.UcApi.{
  UserResponse, UserField, UserCreate, field_name, attr, user_response_fields,
}
use platform_backend.Uc.{Store, user_id_of, create_user, update_user, delete_user}
use platform_backend.Uc.Rename.{apply_update_cases}
use platform_backend.Uc.Sections.{Request, lists, looks_up, gets, creates, updates, deletes, route}

-- The id of the one user that a request may create, change or delete.
abbrev pub target : Request → Option String
target (creates payload now uuid) = some (user_id_of uuid)
target (updates user_id dumped now) = some user_id
target (deletes user_id) = some user_id
target request = none

pub create_kept :
    (payload : UserCreate) (now : ℕ) (uuid id : String) (s : Store)
    → user_id_of uuid ≢ id
    → get id (create_user payload now uuid s).1.users ≡ get id s.users
unfolding create_user
create_kept payload now uuid id s other =
    elim (Bool-cases (has (str payload.username) s.users_by_username)) [
      | inl taken ↦ rw taken refl
      | inr free ↦ rw free (get-put_ne _ s.users other)
    ]

pub delete_kept :
    (user_id id : String) (s : Store)
    → user_id ≢ id
    → get id (delete_user user_id s).1.users ≡ get id s.users
unfolding delete_user
delete_kept user_id id s other = elim (Option-cases (get user_id s.users)) [
  | inl missing ↦ rw missing refl
  | inr (u, stored) ↦ rw stored (get-pop_ne s.users other)
]

module _ (pydantic : ModelCopy UserResponse UserField field_name attr) where
  pub update_kept :
      (user_id : String) (dumped : Dict String Value) (now : ℕ) (id : String) (s : Store)
      → user_id ≢ id
      → get id (update_user pydantic user_id dumped now s).1.users ≡ get id s.users
  unfolding update_user
  update_kept user_id dumped now id s other = elim (Option-cases (get user_id s.users)) [
    | inl missing ↦ rw missing refl
    | inr (existing, stored) ↦
        elim (Option-cases (partial_update_dict dumped user_response_fields)) [
          | inl failed ↦ rw (stored, failed) refl
          | inr (update, computed) ↦
              rw (stored, computed)
                (elim (apply_update_cases pydantic user_id existing update now s) [
                  | inl stopped ↦ rw stopped refl
                  | inr (_, users) ↦ ap (λ d. get id d) users ∙ get-put_ne _ s.users other
                ])
        ]
  ]

  -- A request leaves every user but its target as it was.
  pub route_kept :
      (request : Request) (id : String) (s : Store)
      → target request ≢ some id
      → get id (route pydantic request s).1.users ≡ get id s.users
  unfolding route
  route_kept lists id s other = refl
  route_kept (looks_up username) id s other = refl
  route_kept (gets user_id) id s other = refl
  route_kept (creates payload now uuid) id s other =
      create_kept payload now uuid id s (λ same. other (ap some same))
  route_kept (updates user_id dumped now) id s other =
      update_kept user_id dumped now id s (λ same. other (ap some same))
  route_kept (deletes user_id) id s other = delete_kept user_id id s (λ same. other (ap some same))
