-- ===== src/Uc/Abstract.antt =====
-- The user store up to the order of its entries, as a quotient: what lookups by id and by name find.
pub mod Schedules
use mathlib.Core.Quot
use mathlib.Core.Quot.{Quot, Quot-set, Setoid, Quotient}
use mathlib.Core.Quot.Quotient
use platform_backend.Prelude.{
  Eq-set, ℕ, String, ◌≡◌, ◌≢◌, refl, sym, ap, ◌∙◌, inl, inr, ◌⊎◌, arith, Bool, true, false, ◌&&◌,
  Option, none, some, string_eq, if◌then◌else◌, Option-cases, Bool-cases,
}
use platform_backend.Dict.{Dict, get, has, put, pop}
use platform_backend.Dict.Laws.{get-put, has_iff}
use platform_backend.Dict.Same.{
  SameEntries, has-put_ne, SameEntries-put_comm, has-SameEntries, SameEntries-put, SameEntries-pop,
}
use platform_backend.Core.ModelUtils.{Value, str, time, value_eq, partial_update_dict}
use platform_backend.Core.ModelUtils.Conforms.{ModelCopy}
use platform_backend.UcApi.{
  UserResponse, UserField, UserCreate, field_name, attr, user_response_fields,
}
use platform_backend.Uc.{
  Store, Reply, ok, conflict, found, found_by_id, get_user, get_user_by_username, create_user,
  update_user, apply_update, update_found, update_existing, is_rename, is_taken, or_null,
  delete_user, delete_found, user_id_of,
}
use platform_backend.Uc.Sections.{
  Request, lists, looks_up, gets, creates, updates, deletes, Answer, user, nothing, route,
}

abbrev pub SameStore : Store → Store → Type 0
SameStore s t = SameEntries s.users t.users × SameEntries s.users_by_username t.users_by_username

Value_set : IsSet Value
Value_set = Eq-set

String_set : IsSet String
String_set = Eq-set

UserResponse_set : IsSet UserResponse
UserResponse_set = hlevel Value_set

SameStore-prop : (s t : Store) → IsProp (SameStore s t)
SameStore-prop s t = hlevel (UserResponse_set, String_set)

abbrev pub same_store : Setoid {0, 0} Store
same_store = record {
  r = SameStore;
  iseqv = record {
    refl = λ s. (λ k. refl, λ k. refl);
    symm = λ s t (users, names). (λ k. sym (users k), λ k. sym (names k));
    trans =
        λ s t u (users, names) (users', names'). (λ k. users k ∙ users' k, λ k. names k ∙ names' k);
  };
}

abbrev pub AbstractStore : Type 0
AbstractStore = Quot SameStore

-- Stores are one abstract store only if every lookup finds the same in both.
pub exact : (s t : Store) → ◌≡◌ {A = AbstractStore} (Quot.mk s) (Quot.mk t) → SameStore s t
exact s t = Quotient.exact same_store SameStore-prop

-- The same answer, and stores that stay the same.
abbrev pub SameRun : {A : Type 0} → A × Store → A × Store → Type 0
SameRun p q = (p.0 ≡ q.0) × SameStore p.1 q.1

create_user-SameRun :
    (payload : UserCreate) (now : ℕ) (uuid : String) (s t : Store)
    → SameStore s t
    → SameRun (create_user payload now uuid s) (create_user payload now uuid t)
unfolding create_user
create_user-SameRun payload now uuid s t (users, names) =
    let same = has-SameEntries (str payload.username) _ _ names in
    elim (Bool-cases (has (str payload.username) t.users_by_username)) [
      | inl taken ↦ rw (same, taken) (refl, (users, names))
      | inr free ↦
          rw (same, free) (refl, (SameEntries-put _ _ _ _ users, SameEntries-put _ _ _ _ names))
    ]

delete_user-SameRun :
    (user_id : String) (s t : Store)
    → SameStore s t
    → SameRun (delete_user user_id s) (delete_user user_id t)
unfolding delete_user
delete_user-SameRun user_id s t (users, names) = elim (Option-cases (get user_id t.users)) [
  | inl missing ↦ rw (users user_id, missing) (refl, (users, names))
  | inr (u, stored) ↦
      rw (users user_id, stored) (refl, (SameEntries-pop _ _ _ users, SameEntries-pop _ _ _ names))
]

module _ (p q : UserCreate) (m n : ℕ) (a b : String) (s : Store)
    (names : str p.username ≢ str q.username) (ids : user_id_of a ≢ user_id_of b) where
  abbrev p_first : Reply UserResponse × Store
  p_first = create_user q n b (create_user p m a s).1

  abbrev q_first : Reply UserResponse × Store
  q_first = create_user p m a (create_user q n b s).1

  pub creations-SameStore :
      ((create_user p m a s).0 ≡ q_first.0)
      × (p_first.0 ≡ (create_user q n b s).0)
      × SameStore p_first.1 q_first.1
  unfolding create_user
  creations-SameStore =
      let after_p = has-put_ne (user_id_of a) s.users_by_username names in
      let after_q = has-put_ne (user_id_of b) s.users_by_username (λ same. names (sym same)) in
      elim (Bool-cases (has (str p.username) s.users_by_username)) [
        | inl p_taken ↦ elim (Bool-cases (has (str q.username) s.users_by_username)) [
          | inl q_taken ↦ rw (p_taken, q_taken, p_taken) (refl, refl, (λ k. refl, λ k. refl))
          | inr q_free ↦ rw (p_taken, q_free, after_q, p_taken) (refl, refl, (λ k. refl, λ k. refl))
        ]
        | inr p_free ↦ elim (Bool-cases (has (str q.username) s.users_by_username)) [
          | inl q_taken ↦
              rw (p_free, q_taken, after_p, q_taken, p_free) (refl, refl, (λ k. refl, λ k. refl))
          | inr q_free ↦
              rw (p_free, q_free, after_p, q_free, after_q, p_free)
                (
                  refl,
                  refl,
                  (
                    SameEntries-put_comm _ _ s.users (λ same. ids (sym same)),
                    SameEntries-put_comm _ _ s.users_by_username (λ same. names (sym same)),
                  ),
                )
        ]
      ]

module _ (pydantic : ModelCopy UserResponse UserField field_name attr) where
  apply_update-SameRun :
      (user_id : String) (existing : UserResponse) (update : Dict String Value) (now : ℕ)
      (s t : Store)
      → SameStore s t
      → SameRun
          (apply_update pydantic user_id existing update now s)
          (apply_update pydantic user_id existing update now t)
  unfolding apply_update
  apply_update-SameRun user_id existing update now s t (users, names) =
      let new_username = or_null (get "username" update) in
      elim (Bool-cases (is_rename new_username existing)) [
        | inl renames ↦
            elim (Bool-cases (is_taken (get new_username t.users_by_username) user_id)) [
              | inl taken ↦ rw (names new_username, renames, taken) (refl, (users, names))
              | inr free ↦
                  rw (names new_username, renames, free)
                    (
                      refl,
                      (
                        SameEntries-put _ _ _ _ users,
                        SameEntries-put _ _ _ _ (SameEntries-pop _ _ _ names),
                      ),
                    )
            ]
        | inr stays ↦ rw stays (refl, (SameEntries-put _ _ _ _ users, names))
      ]

  update_user-SameRun :
      (user_id : String) (dumped : Dict String Value) (now : ℕ) (s t : Store)
      → SameStore s t
      → SameRun
          (update_user pydantic user_id dumped now s)
          (update_user pydantic user_id dumped now t)
  unfolding update_user
  update_user-SameRun user_id dumped now s t same = elim (Option-cases (get user_id t.users)) [
    | inl missing ↦ rw (same.0 user_id, missing) (refl, same)
    | inr (existing, stored) ↦
        elim (Option-cases (partial_update_dict dumped user_response_fields)) [
          | inl failed ↦ rw (same.0 user_id, stored, failed) (refl, same)
          | inr (update, computed) ↦
              rw (same.0 user_id, stored, computed)
                (apply_update-SameRun user_id existing update now s t same)
        ]
  ]

  looks_up-SameRun :
      (username : String) (s t : Store)
      → SameStore s t
      → get_user_by_username username s ≡ get_user_by_username username t
  unfolding get_user_by_username
  looks_up-SameRun username s t (users, names) =
      elim (Option-cases (get (str username) t.users_by_username)) [
        | inl missing ↦ rw (names (str username), missing) refl
        | inr (id, listed) ↦ rw (names (str username), listed, users id) refl
      ]

  -- On two stores in which every lookup by id and by name finds the same, each request but the listing
  -- has the same answer, and every request leaves two such stores.
  pub route-SameRun :
      (request : Request) (s t : Store)
      → SameStore s t
      → ((request ≡ lists) ⊎ ((route pydantic request s).0 ≡ (route pydantic request t).0))
        × SameStore (route pydantic request s).1 (route pydantic request t).1
  unfolding route
  route-SameRun lists s t same = (inl refl, same)
  route-SameRun (looks_up username) s t same =
      (inr (ap user (looks_up-SameRun username s t same)), same)
  route-SameRun (gets user_id) s t same =
      (inr (unfold get_user in ap (λ o. user (found o)) (same.0 user_id)), same)
  route-SameRun (creates payload now uuid) s t same =
      let (answer, stores) = create_user-SameRun payload now uuid s t same in
      (inr (ap user answer), stores)
  route-SameRun (updates user_id dumped now) s t same =
      let (answer, stores) = update_user-SameRun user_id dumped now s t same in
      (inr (ap user answer), stores)
  route-SameRun (deletes user_id) s t same =
      let (answer, stores) = delete_user-SameRun user_id s t same in
      (inr (ap nothing answer), stores)

  -- A request on the abstract store.
  unfoldable pub serve : Request → AbstractStore → AbstractStore
  serve request =
      Quot.lift Quot-set (λ s. Quot.mk (route pydantic request s).1)
        (λ s t same. Quot.sound (route-SameRun request s t same).1)

  -- In the abstract store the order of two creations of different names and ids does not matter.
  pub creations_commute :
      (p q : UserCreate) (m n : ℕ) (a b : String)
      → str p.username ≢ str q.username
      → user_id_of a ≢ user_id_of b
      → (x : AbstractStore)
      → serve (creates q n b) (serve (creates p m a) x)
        ≡ serve (creates p m a) (serve (creates q n b) x)
  unfolding serve route
  creations_commute p q m n a b names ids =
      Quot.ind (λ x. Quot-set _ _) (λ s. Quot.sound (creations-SameStore p q m n a b s names ids).2)
