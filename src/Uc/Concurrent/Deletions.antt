-- ===== src/Uc/Concurrent/Deletions.antt =====
-- Threads that race for the deletion of one user, among others.
use platform_backend.Prelude.{
  ℕ, String, ◌≡◌, ◌≢◌, ◌==◌, refl, ◌∙◌, ap, ◌⊎◌, inl, inr, none, some, string_eq, eq_iff, ne_of_beq,
  Bool-cases, Option-cases,
}
use platform_backend.Lock.Threads.{System, Reach, here}
use platform_backend.Lock.Race.{HasOneWinner, one_winner}
use platform_backend.Dict.{Dict, get}
use platform_backend.Dict.Laws.{get-pop_self, get-put_self}
use platform_backend.Core.ModelUtils.{Value, value_eq, partial_update_dict}
use platform_backend.Core.ModelUtils.Conforms.{ModelCopy}
use platform_backend.UcApi.{UserResponse, UserField, field_name, attr, user_response_fields}
use platform_backend.Uc.{Store, ok, not_found, update_user, delete_user}
use platform_backend.Uc.Rename.{apply_update_cases}
use platform_backend.Uc.Sections.{
  Request, lists, looks_up, gets, creates, updates, deletes, Answer, nothing, route,
}
use platform_backend.Uc.Concurrent.{arrived, serves, threads_serve_in_order}
use platform_backend.Uc.Concurrent.Consistent.{drawn, absent-route}
use platform_backend.Uc.Concurrent.Kept.{create_kept, update_kept, delete_kept}

deletes_id : {a b : String} → deletes a ≡ deletes b → a ≡ b
deletes_id h = cc

deletes_or : (id : String) (request : Request) → (request ≡ deletes id) ⊎ (request ≢ deletes id)
deletes_or id (deletes user_id) = elim (Bool-cases (user_id == id)) [
  | inl same ↦ inl (ap (λ k. deletes k) ((eq_iff user_id id).0 same))
  | inr other ↦ inr (λ e. ne_of_beq user_id id other (deletes_id e))
]
deletes_or id lists = inr (λ e. cc)
deletes_or id (looks_up username) = inr (λ e. cc)
deletes_or id (gets user_id) = inr (λ e. cc)
deletes_or id (creates payload now uuid) = inr (λ e. cc)
deletes_or id (updates user_id dumped now) = inr (λ e. cc)

abbrev IsStored : String → Store → Type 0
IsStored id s = (u : UserResponse) × (get id s.users ≡ some u)

module _ (pydantic : ModelCopy UserResponse UserField field_name attr) where
  delete_wins :
      (user_id : String) (request : Request) (s : Store)
      → request ≡ deletes user_id
      → IsStored user_id s
      → ((route pydantic request s).0 ≡ nothing (ok tt))
        × (get user_id (route pydantic request s).1.users ≡ none)
  unfolding route delete_user
  delete_wins user_id request s is_request (stored, there) =
      rw (is_request, there) (refl, get-pop_self user_id s.users)

  delete_loses :
      (user_id : String) (request : Request) (s : Store)
      → request ≡ deletes user_id
      → get user_id s.users ≡ none
      → ((route pydantic request s).0 ≡ nothing not_found)
        × (get user_id (route pydantic request s).1.users ≡ none)
  unfolding route delete_user
  delete_loses user_id request s is_request gone = rw (is_request, gone) (refl, gone)

  update-IsStored :
      (user_id : String) (dumped : Dict String Value) (now : ℕ) (s : Store)
      → IsStored user_id s
      → IsStored user_id (update_user pydantic user_id dumped now s).1
  unfolding update_user
  update-IsStored user_id dumped now s (existing, stored) =
      elim (Option-cases (partial_update_dict dumped user_response_fields)) [
        | inl failed ↦ rw (stored, failed) (existing, stored)
        | inr (update, computed) ↦
            rw (stored, computed)
              (elim (apply_update_cases pydantic user_id existing update now s) [
                | inl stopped ↦ rw stopped (existing, stored)
                | inr (_, users) ↦
                    (_, ap (λ d. get user_id d) users ∙ get-put_self user_id _ s.users)
              ])
      ]

  -- Only a deletion of a user takes it out of the store.
  route-IsStored :
      (id : String) (request : Request) (s : Store)
      → drawn request ≢ some id
      → request ≢ deletes id
      → IsStored id s
      → IsStored id (route pydantic request s).1
  unfolding route
  route-IsStored id lists s new other h = h
  route-IsStored id (looks_up username) s new other h = h
  route-IsStored id (gets user_id) s new other h = h
  route-IsStored id (creates payload now uuid) s new other (u, stored) =
      (u, create_kept payload now uuid id s (λ same. new (ap some same)) ∙ stored)
  route-IsStored id (updates user_id dumped now) s new other (u, stored) =
      elim (Bool-cases (user_id == id)) [
        | inl same ↦
            let here = (eq_iff user_id id).0 same in
            rw here (update-IsStored id dumped now s (u, stored))
        | inr apart ↦
            (u, update_kept pydantic user_id dumped now id s (ne_of_beq user_id id apart) ∙ stored)
      ]
  route-IsStored id (deletes user_id) s new other (u, stored) =
      (u, delete_kept user_id id s (λ same. other (ap (λ k. deletes k) same)) ∙ stored)

  -- In any number of threads of any user requests, none of which creates a user under the id of one that
  -- is stored at the start: however they interleave, of the threads that delete that user none has a
  -- reply yet, or exactly one has deleted it and each other reply is a 404; the store is then without
  -- that user whenever the lock is free.
  pub concurrent_deletes :
      (user_id : String) (stored : UserResponse) (requests : ℕ → Request) (s0 : Store)
      → ((i : ℕ) → drawn (requests i) ≢ some user_id)
      → get user_id s0.users ≡ some stored
      → (s : System Store Answer) → Reach (arrived pydantic requests s0) s
      → HasOneWinner
          (λ i. requests i ≡ deletes user_id)
          (λ winner a. a ≡ nothing (ok tt))
          (λ winner t. get user_id t.users ≡ none)
          (nothing not_found)
          s
  concurrent_deletes user_id stored requests s0 new there s r =
      let (past, more, ordered, _) = threads_serve_in_order pydantic requests s0 s s r here in
      one_winner (serves pydantic requests s0) s0 (λ i. requests i ≡ deletes user_id)
        (IsStored user_id) (λ winner t. get user_id t.users ≡ none)
        (λ winner a. a ≡ nothing (ok tt)) (nothing not_found)
        (record {
          contends_or = λ i. deletes_or user_id (requests i);
          wins = λ i t. delete_wins user_id (requests i) t;
          loses = λ winner i t won late other. delete_loses user_id (requests i) t late;
          free_stays = λ i t other h. route-IsStored user_id (requests i) t (new i) other h;
          taken_stays = λ winner i t won other apart h.
              absent-route pydantic (requests i) user_id t (new i) h;
        })
        (stored, there) s.threads s past refl ordered
