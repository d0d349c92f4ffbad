-- ===== src/Uc/Serve.antt =====
-- Each route's code under the lock, run with nothing in between, beside the route as one step.
use platform_backend.Prelude.{ℕ, String, ◌≡◌, refl, inl, inr, string_eq, Bool-cases, Option-cases}
use platform_backend.Lock.{run}
use platform_backend.Dict.{Dict, get, has}
use platform_backend.Dict.Laws.{has_iff, has_of_get}
use platform_backend.Core.ModelUtils.{Value, str, value_eq, partial_update_dict}
use platform_backend.Core.ModelUtils.Conforms.{ModelCopy}
use platform_backend.UcApi.{
  UserResponse, UserField, field_name, attr, UserCreate, user_response_fields,
}
use platform_backend.Uc.{
  Store, list_users, found, get_user, get_user_by_username, create_user, is_rename, is_taken,
  or_null, apply_update, update_user, delete_user,
}
use platform_backend.Uc.Sections.{
  Request, lists, looks_up, gets, creates, updates, deletes, user, nothing, user_section,
  list_section, get_user_section, get_user_by_username_section, create_user_section,
  update_user_section, delete_user_section, section, route, apply_section,
}

run-user_section :
    (user_id : String) (s : Store)
    → run (user_section user_id) s ≡ (user (found (get user_id s.users)), s)
run-user_section user_id s = elim (Option-cases (get user_id s.users)) [
  | inl missing ↦ rw (run, (has_iff _ _).1 missing, missing) refl
  | inr (u, stored) ↦ rw (run, has_of_get user_id u s.users stored, stored) refl
]

run-get_user_by_username_section :
    (username : String) (s : Store)
    → run (get_user_by_username_section username) s ≡ (user (get_user_by_username username s), s)
unfolding get_user_by_username_section get_user_by_username
run-get_user_by_username_section username s =
    elim (Option-cases (get (str username) s.users_by_username)) [
      | inl missing ↦ rw (run, missing) refl
      | inr (user_id, listed) ↦ rw (run, listed) (run-user_section user_id s)
    ]

run-create_user_section :
    (payload : UserCreate) (now : ℕ) (uuid : String) (s : Store)
    → run (create_user_section payload now uuid) s
      ≡ (user (create_user payload now uuid s).0, (create_user payload now uuid s).1)
unfolding create_user_section create_user
run-create_user_section payload now uuid s =
    elim (Bool-cases (has (str payload.username) s.users_by_username)) [
      | inl taken ↦ rw (run, taken) refl
      | inr free ↦ rw (run, free) refl
    ]

run-delete_user_section :
    (user_id : String) (s : Store)
    → run (delete_user_section user_id) s
      ≡ (nothing (delete_user user_id s).0, (delete_user user_id s).1)
unfolding delete_user_section delete_user
run-delete_user_section user_id s = elim (Option-cases (get user_id s.users)) [
  | inl missing ↦ rw (run, (has_iff _ _).1 missing, missing) refl
  | inr (u, stored) ↦ rw (run, has_of_get user_id u s.users stored, stored) refl
]

module _ (pydantic : ModelCopy UserResponse UserField field_name attr) where
  run-apply_section :
      (user_id : String) (existing : UserResponse) (update : Dict String Value) (now : ℕ)
      (s : Store)
      → run (apply_section pydantic user_id existing update now) s ≡ (
        user (apply_update pydantic user_id existing update now s).0,
        (apply_update pydantic user_id existing update now s).1,
      )
  unfolding apply_update
  run-apply_section user_id existing update now s =
      elim (Bool-cases (is_rename (or_null (get "username" update)) existing)) [
        | inl renames ↦
            elim (Bool-cases
              (is_taken (get (or_null (get "username" update)) s.users_by_username) user_id)) [
                | inl taken ↦ rw (run, renames, taken) refl
                | inr free ↦ rw (run, renames, free) refl
              ]
        | inr same ↦ rw (run, same) refl
      ]

  run-update_user_section :
      (user_id : String) (dumped : Dict String Value) (now : ℕ) (s : Store)
      → run (update_user_section pydantic user_id dumped now) s ≡ (
        user (update_user pydantic user_id dumped now s).0,
        (update_user pydantic user_id dumped now s).1,
      )
  unfolding update_user_section update_user
  run-update_user_section user_id dumped now s = elim (Option-cases (get user_id s.users)) [
    | inl missing ↦ rw (run, (has_iff _ _).1 missing, missing) refl
    | inr (existing, stored) ↦
        elim (Option-cases (partial_update_dict dumped user_response_fields)) [
          | inl failed ↦ rw (run, has_of_get user_id existing s.users stored, stored, failed) refl
          | inr (update, computed) ↦
              rw (run, has_of_get user_id existing s.users stored, stored, computed)
                (run-apply_section user_id existing update now s)
        ]
  ]

  pub run-section :
      (request : Request) (s : Store) → run (section pydantic request) s ≡ route pydantic request s
  unfolding section route list_section list_users get_user_section get_user
  run-section lists s = refl
  run-section (looks_up username) s = run-get_user_by_username_section username s
  run-section (gets user_id) s = run-user_section user_id s
  run-section (creates payload now uuid) s = run-create_user_section payload now uuid s
  run-section (updates user_id dumped now) s = run-update_user_section user_id dumped now s
  run-section (deletes user_id) s = run-delete_user_section user_id s
