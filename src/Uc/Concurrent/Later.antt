-- ===== src/Uc/Concurrent/Later.antt =====
-- Requests that start after another one was answered.
use platform_backend.Prelude.{
  ℕ, String, ◌≡◌, ◌≢◌, refl, sym, ap, ◌∙◌, inl, inr, true, some, List, [], ◌∷◌, ◌++◌, string_eq,
  nat_eq, contains, Bool-cases,
}
use platform_backend.Lock.Threads.{Thread, waiting, finished, finished_inj, System, Reach}
use platform_backend.Lock.Serial.{listed_cons}
use platform_backend.Lock.Order.{served, Answered}
use platform_backend.Lock.Replies.{
  late_reply, reply-listed, waiting-unlisted, listed_append, reply_stays,
}
use platform_backend.Dict.{get, has}
use platform_backend.Dict.Laws.{get-put_self}
use platform_backend.Core.ModelUtils.{str, value_eq}
use platform_backend.Core.ModelUtils.Conforms.{ModelCopy}
use platform_backend.UcApi.{UserResponse, UserField, UserCreate, field_name, attr}
use platform_backend.Uc.{Store, Reply, ok, get_user, user_id_of, create_user}
use platform_backend.Uc.Lookup.{ok_inj}
use platform_backend.Uc.Sections.{Code, Request, gets, creates, Answer, user, route}
use platform_backend.Uc.Concurrent.Kept.{target, route_kept}
use platform_backend.Uc.Concurrent.{arrived, serves, threads_serve_in_order}

user_inj : {a b : Reply UserResponse} → user a ≡ user b → a ≡ b
user_inj h = cc

create_ok :
    (payload : UserCreate) (now : ℕ) (uuid : String) (s : Store) (u : UserResponse)
    → (create_user payload now uuid s).0 ≡ ok u
    → get (user_id_of uuid) (create_user payload now uuid s).1.users ≡ some u
unfolding create_user
create_ok payload now uuid s u h =
    elim (Bool-cases (has (str payload.username) s.users_by_username)) [
      | inl taken ↦ cc (rw taken at h)
      | inr free ↦
          rw free (get-put_self (user_id_of uuid) _ s.users ∙ ap some (ok_inj (rw free at h)))
    ]

module _ (pydantic : ModelCopy UserResponse UserField field_name attr) where
  route_created :
      (request : Request) (payload : UserCreate) (now : ℕ) (uuid : String) (s : Store)
      (u : UserResponse)
      → request ≡ creates payload now uuid
      → (route pydantic request s).0 ≡ user (ok u)
      → get (user_id_of uuid) (route pydantic request s).1.users ≡ some u
  unfolding route
  route_created request payload now uuid s u e h =
      rw e (create_ok payload now uuid s u (user_inj (rw e at h)))

  route_read :
      (request : Request) (id : String) (s : Store) (u : UserResponse)
      → request ≡ gets id
      → get id s.users ≡ some u
      → (route pydantic request s).0 ≡ user (ok u)
  unfolding route get_user
  route_read request id s u e stored = rw (e, stored) refl

  module _ (requests : ℕ → Request) (s0 : Store) where
    abbrev before_all : List ℕ → Store
    before_all = served (serves pydantic requests s0) s0

    module _ (i : ℕ) (payload : UserCreate) (now : ℕ) (uuid : String) (u : UserResponse)
        (creation : requests i ≡ creates payload now uuid)
        (alone : (k : ℕ) → i ≢ k → target (requests k) ≢ some (user_id_of uuid)) where
      stored_after :
          (past : List ℕ) (threads : ℕ → Thread Store Answer)
          → Answered (serves pydantic requests s0) s0 past threads
          → contains i past ≡ true
          → threads i ≡ finished (user (ok u))
          → get (user_id_of uuid) (before_all past).users ≡ some u
      stored_after [] threads h listed e = cc
      stored_after (k ∷ past) threads (answered, out, h) listed e =
          elim (listed_cons i k past listed) [
            | inl same ↦
                route_created (requests k) payload now uuid (before_all past) u
                  (ap requests (sym same) ∙ creation)
                  (finished_inj (threads k) answered (ap threads (sym same) ∙ e))
            | inr before ↦
                route_kept pydantic (requests k) (user_id_of uuid) (before_all past)
                  (alone k (λ same. cc (same, before, out)))
                ∙ stored_after past threads h before e
          ]

      -- If in a state that threads of user requests have reached a creation has been answered with its
      -- user, and a request for that user's id has not begun, then the latter, whenever it is answered,
      -- is answered with that user, as long as no other request is aimed at its id.
      pub created_user_is_read_later :
          (s t : System Store Answer) (j : ℕ) (code : Code) (reply : Answer)
          → requests j ≡ gets (user_id_of uuid)
          → Reach (arrived pydantic requests s0) s
          → s.threads i ≡ finished (user (ok u))
          → s.threads j ≡ waiting code
          → Reach s t
          → t.threads j ≡ finished reply
          → t.threads j ≡ finished (user (ok u))
      created_user_is_read_later s t j code reply reading r created waits later done =
          let (past, more, before, after) =
            threads_serve_in_order pydantic requests s0 s t r later in
          let fresh =
            waiting-unlisted (serves pydantic requests s0) s0 past s j code before waits in
          let listed_i =
            reply-listed (serves pydantic requests s0) s0 past s i (user (ok u)) before created in
          let listed_j =
            reply-listed (serves pydantic requests s0) s0 (more ++ past) t j reply after done in
          let (between, answered, out, same) =
            late_reply (serves pydantic requests s0) s0 more past t.threads j reply after.answered
              listed_j fresh done in
          let still : t.threads i ≡ finished (user (ok u)) =
            reply_stays later i (user (ok u)) created in
          let stored =
            stored_after (between ++ past) t.threads answered
              (listed_append i between past listed_i) still in
          done
          ∙ ap (λ a. finished a)
              (sym same
                ∙ route_read (requests j) (user_id_of uuid) (before_all (between ++ past)) u reading
                    stored)
