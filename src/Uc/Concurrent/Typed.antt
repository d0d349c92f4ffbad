-- ===== src/Uc/Concurrent/Typed.antt =====
-- What the replies of the threads hold.
use mathlib.Core.Path.{subst}
use mathlib.Core.List.{Memᴰ}
use platform_backend.Prelude.{
  ℕ, String, ◌≡◌, refl, ◌⊎◌, inl, inr, none, some, string_eq, nat_eq, Option-cases, Bool-cases,
}
use platform_backend.Lock.Threads.{finished, System, Reach, here}
use platform_backend.Lock.Order.{served}
use platform_backend.Lock.Replies.{after_all, reply-ComesFrom}
use platform_backend.Dict.{Dict, get, has}
use platform_backend.Dict.Listing.{listed_iff}
use platform_backend.Core.ModelUtils.{Value, str, value_eq}
use platform_backend.Core.ModelUtils.Conforms.{ModelCopy, IsDumped}
use platform_backend.UcApi.{
  UserResponse, UserField, UserCreate, field_name, attr, user_update_fields,
}
use platform_backend.Uc.{
  Store, Reply, ok, http_exception, unhandled, found, list_users, get_user, get_user_by_username,
  create_user, update_user, delete_user,
}
use platform_backend.Uc.Invariant.{IsConsistent, IsUserResponse, new_user-IsUserResponse}
use platform_backend.Uc.Lookup.{get_user_iff}
use platform_backend.Uc.Update.{update_user-IsConsistent}
use platform_backend.Uc.Rename.{update_user-updates}
use platform_backend.Uc.Conflict.{update_user-conflict_iff}
use platform_backend.Uc.Sections.{
  Request, lists, looks_up, gets, creates, updates, deletes, Answer, users, user, nothing, route,
}
use platform_backend.Uc.Concurrent.{arrived, serves, threads_serve_in_order}
use platform_backend.Uc.Concurrent.Consistent.{drawn, IsValidated, served-IsConsistent}

-- A reply is a 404, a 409 or a result of that kind; no other exception has left the route.
abbrev pub IsReply : {A : Type 0} → (A → Type 0) → Reply A → Type 0
IsReply P (ok a) = P a
IsReply P (http_exception status_code detail) = (status_code ≡ 404) ⊎ (status_code ≡ 409)
IsReply P unhandled = ⊥

-- Each user in a reply is typed as `UserResponse` says.
abbrev pub IsTyped : Answer → Type 0
IsTyped (users reply) = IsReply (λ us. (u : UserResponse) → Memᴰ u us → IsUserResponse u) reply
IsTyped (user reply) = IsReply IsUserResponse reply
IsTyped (nothing reply) = IsReply (λ _. Unit) reply

found-IsReply :
    (id : String) (s : Store) → IsConsistent s → IsReply IsUserResponse (found (get id s.users))
found-IsReply id s h = elim (Option-cases (get id s.users)) [
  | inl missing ↦ rw missing (inl refl)
  | inr (u, stored) ↦ rw stored (h.typed id u stored)
]

by_username-IsReply :
    (username : String) (s : Store)
    → IsConsistent s
    → IsReply IsUserResponse (get_user_by_username username s)
unfolding get_user_by_username
by_username-IsReply username s h = elim (Option-cases (get (str username) s.users_by_username)) [
  | inl missing ↦ rw missing (inl refl)
  | inr (id, listed) ↦ rw listed (found-IsReply id s h)
]

list_users-IsReply :
    (s : Store)
    → IsConsistent s
    → IsReply (λ us. (u : UserResponse) → Memᴰ u us → IsUserResponse u) (list_users s)
unfolding list_users
list_users-IsReply s h u m =
    let (id, stored) = (listed_iff s.users u h.distinct).0 m in h.typed id u stored

create_user-IsReply :
    (payload : UserCreate) (now : ℕ) (uuid : String) (s : Store)
    → IsReply IsUserResponse (create_user payload now uuid s).0
unfolding create_user
create_user-IsReply payload now uuid s =
    elim (Bool-cases (has (str payload.username) s.users_by_username)) [
      | inl taken ↦ rw taken (inr refl)
      | inr free ↦ rw free (new_user-IsUserResponse payload now uuid)
    ]

delete_user-IsReply :
    (user_id : String) (s : Store) → IsReply (λ _. Unit {0}) (delete_user user_id s).0
unfolding delete_user
delete_user-IsReply user_id s = elim (Option-cases (get user_id s.users)) [
  | inl missing ↦ rw missing (inl refl)
  | inr (u, stored) ↦ rw stored tt
]

module _ (pydantic : ModelCopy UserResponse UserField field_name attr) where
  update_user-IsReply :
      (user_id : String) (dumped : Dict String Value) (now : ℕ) (s : Store)
      → IsDumped user_update_fields dumped
      → IsConsistent s
      → IsReply IsUserResponse (update_user pydantic user_id dumped now s).0
  update_user-IsReply user_id dumped now s valid h = elim (Option-cases (get user_id s.users)) [
    | inl missing ↦ unfold update_user in rw missing (inl refl)
    | inr (existing, stored) ↦
        let returned = (get_user_iff user_id existing s).1 stored in
        elim (update_user-conflict_iff pydantic user_id dumped now s existing h valid returned).0 [
          | inl (updated, succeeded) ↦
              let (there, _, _, _) =
                update_user-updates pydantic user_id dumped now s existing updated valid returned
                  succeeded in
              let after = update_user-IsConsistent pydantic user_id dumped now s valid h in
              rw succeeded (after.typed user_id updated ((get_user_iff user_id updated _).0 there))
          | inr refused ↦ rw refused (inr refl)
        ]
  ]

  route-IsTyped :
      (request : Request) (s : Store)
      → IsValidated request
      → IsConsistent s
      → IsTyped (route pydantic request s).0
  unfolding route
  route-IsTyped lists s valid h = list_users-IsReply s h
  route-IsTyped (looks_up username) s valid h = by_username-IsReply username s h
  route-IsTyped (gets user_id) s valid h = unfold get_user in found-IsReply user_id s h
  route-IsTyped (creates payload now uuid) s valid h = create_user-IsReply payload now uuid s
  route-IsTyped (updates user_id dumped now) s valid h =
      update_user-IsReply user_id dumped now s valid h
  route-IsTyped (deletes user_id) s valid h = delete_user-IsReply user_id s

  module _ (requests : ℕ → Request) (s0 : Store) (valid : (i : ℕ) → IsValidated (requests i))
      (fresh : (i : ℕ) (id : String) → drawn (requests i) ≡ some id → get id s0.users ≡ none)
      (distinct : (i j : ℕ) (id : String)
        → drawn (requests i) ≡ some id
        → drawn (requests j) ≡ some id
        → i ≡ j)
      (h0 : IsConsistent s0) where
    -- From a consistent store, with validated payloads and with drawn ids that are new and differ,
    -- each reply that a thread ever has is a 404, a 409 or a success, and never another exception, such
    -- as a KeyError; each user in it is typed as `UserResponse` says.
    pub threads-IsTyped :
        (s : System Store Answer) (i : ℕ) (reply : Answer)
        → Reach (arrived pydantic requests s0) s
        → s.threads i ≡ finished reply
        → IsTyped reply
    threads-IsTyped s i reply r done =
        let (past, more, ordered, _) = threads_serve_in_order pydantic requests s0 s s r here in
        elim (reply-ComesFrom (serves pydantic requests s0) s0 past s i reply ordered done) [
          | after_all before rest out same ↦
              let (h, _) =
                served-IsConsistent pydantic requests s0 valid fresh distinct h0 before s.threads
                  rest in
              subst IsTyped same (
                route-IsTyped (requests i) (served (serves pydantic requests s0) s0 before)
                  (valid i) h)
        ]
