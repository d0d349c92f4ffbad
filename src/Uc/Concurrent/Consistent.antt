-- ===== src/Uc/Concurrent/Consistent.antt =====
-- The invariant of the store, and the threads.
use platform_backend.Prelude.{
  ℕ, String, ◌≡◌, ◌≢◌, ◌==◌, refl, ◌∙◌, ap, inl, inr, false, List, [], ◌∷◌, Option, none, some,
  string_eq, nat_eq, contains, Option-cases, Bool-cases,
}
use platform_backend.Lock.Threads.{Thread, System, Reach, here}
use platform_backend.Lock.Serial.{unlisted_cons}
use platform_backend.Lock.Order.{served, Answered}
use platform_backend.Dict.{Dict, get, has, pop}
use platform_backend.Dict.Laws.{get-put_ne, get-pop}
use platform_backend.Core.ModelUtils.{Value, str, value_eq}
use platform_backend.Core.ModelUtils.Conforms.{ModelCopy, IsDumped}
use platform_backend.UcApi.{
  UserResponse, UserField, UserCreate, field_name, attr, user_update_fields, user_response_fields,
}
use platform_backend.Uc.{Store, user_id_of, create_user, update_user, delete_user}
use platform_backend.Core.ModelUtils.{partial_update_dict}
use platform_backend.Uc.Invariant.{IsConsistent, create_user-IsConsistent, delete_user-IsConsistent}
use platform_backend.Uc.Update.{update_user-IsConsistent}
use platform_backend.Uc.Rename.{apply_update_cases}
use platform_backend.Uc.Sections.{
  Request, lists, looks_up, gets, creates, updates, deletes, Answer, route,
}
use platform_backend.Uc.Concurrent.{arrived, serves, threads_serve_in_order}

-- The id that a creation draws.
abbrev pub drawn : Request → Option String
drawn (creates payload now uuid) = some (user_id_of uuid)
drawn request = none

-- pydantic has validated the payload of an update.
abbrev pub IsValidated : Request → Type 0
IsValidated (updates user_id dumped now) = IsDumped user_update_fields dumped
IsValidated request = Unit

absent-pop :
    (id user_id : String) (d : Dict String UserResponse)
    → get id d ≡ none
    → get id (pop user_id d) ≡ none
absent-pop id user_id d h = elim (Bool-cases (user_id == id)) [
  | inl same ↦ rw (get-pop user_id id d, same) refl
  | inr other ↦ rw (get-pop user_id id d, other) h
]

module _ (pydantic : ModelCopy UserResponse UserField field_name attr) where
  absent-create :
      (payload : UserCreate) (now : ℕ) (uuid id : String) (s : Store)
      → user_id_of uuid ≢ id
      → get id s.users ≡ none
      → get id (create_user payload now uuid s).1.users ≡ none
  unfolding create_user
  absent-create payload now uuid id s other h =
      elim (Bool-cases (has (str payload.username) s.users_by_username)) [
        | inl taken ↦ rw taken h
        | inr free ↦ rw free (get-put_ne _ s.users other ∙ h)
      ]

  absent-update :
      (user_id : String) (dumped : Dict String Value) (now : ℕ) (id : String) (s : Store)
      → get id s.users ≡ none
      → get id (update_user pydantic user_id dumped now s).1.users ≡ none
  unfolding update_user
  absent-update user_id dumped now id s h = elim (Option-cases (get user_id s.users)) [
    | inl missing ↦ rw missing h
    | inr (existing, stored) ↦
        elim (Option-cases (partial_update_dict dumped user_response_fields)) [
          | inl failed ↦ rw (stored, failed) h
          | inr (update, computed) ↦
              rw (stored, computed)
                (elim (apply_update_cases pydantic user_id existing update now s) [
                  | inl stopped ↦ rw stopped h
                  | inr (_, users) ↦
                      ap (λ d. get id d) users
                      ∙ get-put_ne _ s.users (λ same. cc (same, h, stored))
                      ∙ h
                ])
        ]
  ]

  absent-delete :
      (user_id id : String) (s : Store)
      → get id s.users ≡ none
      → get id (delete_user user_id s).1.users ≡ none
  unfolding delete_user
  absent-delete user_id id s h = elim (Option-cases (get user_id s.users)) [
    | inl missing ↦ rw missing h
    | inr (user, stored) ↦ rw stored (absent-pop id user_id s.users h)
  ]

  -- A request adds no other id than the one that it draws.
  pub absent-route :
      (request : Request) (id : String) (s : Store)
      → drawn request ≢ some id
      → get id s.users ≡ none
      → get id (route pydantic request s).1.users ≡ none
  unfolding route
  absent-route lists id s other h = h
  absent-route (looks_up username) id s other h = h
  absent-route (gets user_id) id s other h = h
  absent-route (creates payload now uuid) id s other h =
      absent-create payload now uuid id s (λ same. other (ap some same)) h
  absent-route (updates user_id dumped now) id s other h = absent-update user_id dumped now id s h
  absent-route (deletes user_id) id s other h = absent-delete user_id id s h

  route-IsConsistent :
      (request : Request) (s : Store)
      → IsValidated request
      → ((id : String) → drawn request ≡ some id → get id s.users ≡ none)
      → IsConsistent s
      → IsConsistent (route pydantic request s).1
  unfolding route
  route-IsConsistent lists s valid fresh h = h
  route-IsConsistent (looks_up username) s valid fresh h = h
  route-IsConsistent (gets user_id) s valid fresh h = h
  route-IsConsistent (creates payload now uuid) s valid fresh h =
      create_user-IsConsistent payload now uuid s (fresh (user_id_of uuid) refl) h
  route-IsConsistent (updates user_id dumped now) s valid fresh h =
      update_user-IsConsistent pydantic user_id dumped now s valid h
  route-IsConsistent (deletes user_id) s valid fresh h = delete_user-IsConsistent user_id s h

  module _ (requests : ℕ → Request) (s0 : Store) (valid : (i : ℕ) → IsValidated (requests i))
      (fresh : (i : ℕ) (id : String) → drawn (requests i) ≡ some id → get id s0.users ≡ none)
      (distinct : (i j : ℕ) (id : String)
        → drawn (requests i) ≡ some id
        → drawn (requests j) ≡ some id
        → i ≡ j)
      (h0 : IsConsistent s0) where
    pub served-IsConsistent :
        (past : List ℕ) (threads : ℕ → Thread Store Answer)
        → Answered (serves pydantic requests s0) s0 past threads
        → IsConsistent (served (serves pydantic requests s0) s0 past)
          × ((j : ℕ) (id : String)
              → contains j past ≡ false
              → drawn (requests j) ≡ some id
              → get id (served (serves pydantic requests s0) s0 past).users ≡ none)
    served-IsConsistent [] threads tt = (h0, λ j id out draws. fresh j id draws)
    served-IsConsistent (i ∷ past) threads (reply, out, rest) =
        let (h, unused) = served-IsConsistent past threads rest in
        let s = served (serves pydantic requests s0) s0 past in
        (
          route-IsConsistent (requests i) s (valid i) (λ id draws. unused i id out draws) h,
          λ j id later draws.
              let (other, out_too) = unlisted_cons j i past later in
              absent-route (requests i) id s (λ same. other (distinct j i id draws same))
                (unused j id out_too draws),
        )

    -- From a consistent store, with validated payloads and with drawn ids that are new and differ,
    -- whatever the threads of the requests do, the store is consistent whenever the lock is free.
    pub threads-IsConsistent :
        (s : System Store Answer)
        → Reach (arrived pydantic requests s0) s
        → s.holder ≡ none
        → IsConsistent s.store
    threads-IsConsistent s r idle =
        let (past, more, ordered, _) = threads_serve_in_order pydantic requests s0 s s r here in
        rw (ordered.left idle) (served-IsConsistent past s.threads ordered.answered).0
