-- ===== src/Uc/Concurrent/Races.antt =====
-- Threads that race for one name, or for the deletion of one user, among others.
use platform_backend.Prelude.{
  ℕ, String, ◌≡◌, ◌==◌, ◌≢◌, refl, sym, ◌∙◌, ap, ◌⊎◌, inl, inr, true, none, some, string_eq, eq_iff,
  ne_of_beq, Bool-cases,
}
use platform_backend.Lock.Threads.{System, Reach, here}
use platform_backend.Lock.Race.{HasOneWinner, one_winner}
use platform_backend.Dict.{get, has}
use platform_backend.Dict.Laws.{has_iff, get-put_self, get-put_ne}
use platform_backend.Core.ModelUtils.{str, value_eq}
use platform_backend.Core.ModelUtils.Conforms.{ModelCopy}
use platform_backend.UcApi.{UserResponse, UserField, UserCreate, field_name, attr}
use platform_backend.Uc.{Store, ok, conflict, create_user, user_id_of, new_user}
use platform_backend.Uc.Concurrent.Consistent.{drawn}
use platform_backend.Uc.Concurrent.Kept.{target, route_kept}
use platform_backend.Uc.Behaviour.{str_ne}
use platform_backend.Uc.Sections.{
  Request, lists, looks_up, gets, creates, updates, deletes, Answer, user, route,
}
use platform_backend.Uc.Concurrent.{arrived, serves, threads_serve_in_order}

-- A request to create a user of that name.
abbrev pub CreatesNamed : String → Request → Type 0
CreatesNamed name request =
    (payload : UserCreate) × (now : ℕ) × (uuid : String) × (payload.username ≡ name)
    × (request ≡ creates payload now uuid)

-- The answer to a creation is its new user.
abbrev pub IsCreated : Request → Answer → Type 0
IsCreated (creates payload now uuid) answer = answer ≡ user (ok (new_user payload now uuid))
IsCreated request answer = ⊥

-- The store holds the user of a creation under its id, and the index leads from its name to it.
abbrev pub Holds : Request → Store → Type 0
Holds (creates payload now uuid) s =
    (get (user_id_of uuid) s.users ≡ some (new_user payload now uuid))
    × (get (str payload.username) s.users_by_username ≡ some (user_id_of uuid))
Holds request s = ⊥

-- A request that reads or creates, and so frees no name.
abbrev pub FreesNothing : Request → Type 0
FreesNothing (updates user_id dumped now) = ⊥
FreesNothing (deletes user_id) = ⊥
FreesNothing request = Unit

creates_payload :
    {p q : UserCreate} {m n : ℕ} {a b : String} → creates p m a ≡ creates q n b → p ≡ q
creates_payload h = cc

creates_or :
    (name : String) (request : Request) → CreatesNamed name request ⊎ (¬ CreatesNamed name request)
creates_or name lists = inr (λ (p, m, a, named, e). cc)
creates_or name (looks_up username) = inr (λ (p, m, a, named, e). cc)
creates_or name (gets user_id) = inr (λ (p, m, a, named, e). cc)
creates_or name (creates payload now uuid) = elim (Bool-cases (payload.username == name)) [
  | inl same ↦ inl (payload, now, uuid, (eq_iff payload.username name).0 same, refl)
  | inr other ↦ inr (λ (p, m, a, named, e).
      ne_of_beq payload.username name other (ap (λ c. c.username) (creates_payload e) ∙ named))
]
creates_or name (updates user_id dumped now) = inr (λ (p, m, a, named, e). cc)
creates_or name (deletes user_id) = inr (λ (p, m, a, named, e). cc)

target-drawn : (request : Request) → FreesNothing request → target request ≡ drawn request
target-drawn lists h = refl
target-drawn (looks_up username) h = refl
target-drawn (gets user_id) h = refl
target-drawn (creates payload now uuid) h = refl
target-drawn (updates user_id dumped now) h = absurd h
target-drawn (deletes user_id) h = absurd h

module _ (pydantic : ModelCopy UserResponse UserField field_name attr) where
  create_wins :
      (name : String) (request : Request) (s : Store)
      → CreatesNamed name request
      → get (str name) s.users_by_username ≡ none
      → IsCreated request (route pydantic request s).0 × Holds request (route pydantic request s).1
  unfolding route create_user
  create_wins name request s (payload, now, uuid, named, is_request) free =
      let unused : get (str payload.username) s.users_by_username ≡ none = rw named free in
      rw (is_request, (has_iff (str payload.username) s.users_by_username).1 unused)
        (refl, (get-put_self _ _ s.users, get-put_self _ _ s.users_by_username))

  create_loses :
      (name : String) (request : Request) (s : Store)
      → CreatesNamed name request
      → has (str name) s.users_by_username ≡ true
      → route pydantic request s ≡ (user conflict, s)
  unfolding route create_user
  create_loses name request s (payload, now, uuid, named, is_request) taken =
      rw (is_request, named, taken) refl

  Holds-name :
      (name : String) (request : Request) (s : Store)
      → CreatesNamed name request
      → Holds request s
      → has (str name) s.users_by_username ≡ true
  unfolding has
  Holds-name name request s (payload, now, uuid, named, is_request) holds =
      let (stored, listed) : Holds (creates payload now uuid) s = rw is_request at holds in
      rw (← named, listed) refl

  -- A read, or the creation of another name, leaves the name as it was.
  name_kept :
      (name : String) (request : Request) (s : Store)
      → FreesNothing request
      → ¬ CreatesNamed name request
      → get (str name) (route pydantic request s).1.users_by_username
        ≡ get (str name) s.users_by_username
  unfolding route create_user
  name_kept name lists s h other = refl
  name_kept name (looks_up username) s h other = refl
  name_kept name (gets user_id) s h other = refl
  name_kept name (creates payload now uuid) s h other =
      elim (Bool-cases (has (str payload.username) s.users_by_username)) [
        | inl taken ↦ rw taken refl
        | inr free ↦ rw free (
            get-put_ne _ s.users_by_username
              (str_ne (λ same. other (payload, now, uuid, same, refl))))
      ]
  name_kept name (updates user_id dumped now) s h other = absurd h
  name_kept name (deletes user_id) s h other = absurd h

  -- So it leaves the user of the name's creation, if it does not draw the same id.
  Holds-route :
      (name : String) (winner request : Request) (s : Store)
      → CreatesNamed name winner
      → FreesNothing request
      → ¬ CreatesNamed name request
      → ((id : String) → drawn winner ≡ some id → drawn request ≢ some id)
      → Holds winner s
      → Holds winner (route pydantic request s).1
  Holds-route name winner request s (payload, now, uuid, named, is_winner) adding other apart
        holds =
      let (stored, listed) : Holds (creates payload now uuid) s = rw is_winner at holds in
      let others : ¬ CreatesNamed payload.username request = rw named other in
      let elsewhere : drawn request ≢ some (user_id_of uuid) =
        apart (user_id_of uuid) (ap drawn is_winner) in
      rw is_winner (
        route_kept pydantic request (user_id_of uuid) s
              (λ aimed. elsewhere (sym (target-drawn request adding) ∙ aimed))
            ∙ stored,
        name_kept payload.username request s adding others ∙ listed,
      )

  -- In any number of threads that read or create, with drawn ids that differ, while a name is free at the
  -- start: however they interleave, of the threads that create a user of that name none has a reply yet,
  -- or exactly one is answered with its new user and each other reply is a 409. Whenever the lock is free
  -- the store then holds that user under its id, and the name leads to it.
  pub concurrent_creates :
      (name : String) (requests : ℕ → Request) (s0 : Store)
      → ((i : ℕ) → FreesNothing (requests i))
      → ((i j : ℕ) (id : String)
          → drawn (requests i) ≡ some id
          → drawn (requests j) ≡ some id
          → i ≡ j)
      → get (str name) s0.users_by_username ≡ none
      → (s : System Store Answer) → Reach (arrived pydantic requests s0) s
      → HasOneWinner
          (λ i. CreatesNamed name (requests i))
          (λ winner. IsCreated (requests winner))
          (λ winner. Holds (requests winner))
          (user conflict)
          s
  concurrent_creates name requests s0 adding distinct free s r =
      let (past, more, ordered, _) = threads_serve_in_order pydantic requests s0 s s r here in
      one_winner (serves pydantic requests s0) s0 (λ i. CreatesNamed name (requests i))
        (λ t. get (str name) t.users_by_username ≡ none) (λ winner. Holds (requests winner))
        (λ winner. IsCreated (requests winner)) (user conflict)
        (record {
          contends_or = λ i. creates_or name (requests i);
          wins = λ i t. create_wins name (requests i) t;
          loses = λ winner i t won late other holds.
              let lost =
                create_loses name (requests i) t late
                  (Holds-name name (requests winner) t won holds) in
              (ap (λ p. p.0) lost, rw lost holds);
          free_stays = λ i t other h. name_kept name (requests i) t (adding i) other ∙ h;
          taken_stays = λ winner i t won other apart holds.
              Holds-route name (requests winner) (requests i) t won (adding i) other
                (λ id draws again. apart (distinct winner i id draws again)) holds;
        })
        free s.threads s past refl ordered
