-- ===== src/Uc/Abstract/Schedules.antt =====
-- Two creations at once, in the view that forgets the order of the entries.
use mathlib.Core.Quot
use platform_backend.Prelude.{
  ℕ, zero, suc, String, ◌≡◌, ◌≢◌, refl, sym, ap, ◌∙◌, Bool, true, false, List, [], ◌∷◌, nat_eq,
  beq_of_ne, contains, arith, none,
}
use platform_backend.Lock.Threads.{Thread, finished, System, Reach, here}
use platform_backend.Lock.Order.{served, Answered}
use platform_backend.Lock.Replies.{reply-listed}
use platform_backend.Core.ModelUtils.{str}
use platform_backend.Core.ModelUtils.Conforms.{ModelCopy}
use platform_backend.UcApi.{UserResponse, UserField, UserCreate, field_name, attr}
use platform_backend.Uc.{Store, user_id_of}
use platform_backend.Uc.Sections.{
  Request, lists, looks_up, gets, creates, updates, deletes, Answer, route,
}
use platform_backend.Uc.Concurrent.{arrived, serves, threads_serve_in_order}
use platform_backend.Uc.Abstract.{SameStore, AbstractStore, serve, creations_commute, exact}

abbrev pub IsRead : Request → Type 0
IsRead lists = Unit
IsRead (looks_up username) = Unit
IsRead (gets user_id) = Unit
IsRead request = ⊥

module _ (pydantic : ModelCopy UserResponse UserField field_name attr) where
  read_leaves : (request : Request) (s : Store) → IsRead request → (route pydantic request s).1 ≡ s
  unfolding route
  read_leaves lists s h = refl
  read_leaves (looks_up username) s h = refl
  read_leaves (gets user_id) s h = refl
  read_leaves (creates payload now uuid) s h = absurd h
  read_leaves (updates user_id dumped now) s h = absurd h
  read_leaves (deletes user_id) s h = absurd h

  module _ (requests : ℕ → Request) (s0 : Store) (p q : UserCreate) (m n : ℕ) (a b : String)
      (first : requests 0 ≡ creates p m a) (second : requests 1 ≡ creates q n b)
      (others : (k : ℕ) → IsRead (requests (suc (suc k)))) (names : str p.username ≢ str q.username)
      (ids : user_id_of a ≢ user_id_of b) where
    -- What the store is, by which of the two creations have run.
    abbrev expected : Bool → Bool → AbstractStore
    expected false false = Quot.mk s0
    expected true false = serve pydantic (creates p m a) (Quot.mk s0)
    expected false true = serve pydantic (creates q n b) (Quot.mk s0)
    expected true true =
        serve pydantic (creates q n b) (serve pydantic (creates p m a) (Quot.mk s0))

    p_runs :
        (ran_q : Bool) → serve pydantic (creates p m a) (expected false ran_q) ≡ expected true ran_q
    p_runs false = refl
    p_runs true = sym (creations_commute pydantic p q m n a b names ids (Quot.mk s0))

    q_runs :
        (ran_p : Bool) → serve pydantic (creates q n b) (expected ran_p false) ≡ expected ran_p true
    q_runs false = refl
    q_runs true = refl

    served_by :
        (i : ℕ) (request : Request) (past : List ℕ)
        → requests i ≡ request
        → ◌≡◌ {A = AbstractStore}
            (Quot.mk (served (serves pydantic requests s0) s0 (i ∷ past)))
            (serve pydantic request (Quot.mk (served (serves pydantic requests s0) s0 past)))
    unfolding serve
    served_by i request past e =
        ap (λ q. Quot.mk (route pydantic q (served (serves pydantic requests s0) s0 past)).1) e

    served-expected :
        (past : List ℕ) (threads : ℕ → Thread Store Answer)
        → Answered (serves pydantic requests s0) s0 past threads
        → ◌≡◌ {A = AbstractStore}
            (Quot.mk (served (serves pydantic requests s0) s0 past))
            (expected (contains 0 past) (contains 1 past))
    unfolding serve
    served-expected [] threads h = refl
    served-expected (zero ∷ past) threads (_, out, h) =
        served_by 0 (creates p m a) past first
        ∙ ap (serve pydantic (creates p m a)) (served-expected past threads h)
        ∙ rw out (p_runs (contains 1 past))
    served-expected (suc zero ∷ past) threads (_, out, h) =
        served_by 1 (creates q n b) past second
        ∙ ap (serve pydantic (creates q n b)) (served-expected past threads h)
        ∙ rw out (q_runs (contains 0 past))
    served-expected (suc (suc k) ∷ past) threads (_, out, h) =
        ap (λ s. Quot.mk s) (read_leaves (requests (suc (suc k))) _ (others k))
        ∙ served-expected past threads h
        ∙ rw
            (
              beq_of_ne 0 (suc (suc k)) (λ e. omega arith),
              beq_of_ne 1 (suc (suc k)) (λ e. omega arith),
            )
            refl

    both_ran :
        (s : System Store Answer) (x y : Answer)
        → Reach (arrived pydantic requests s0) s
        → s.threads 0 ≡ finished x
        → s.threads 1 ≡ finished y
        → s.holder ≡ none
        → ◌≡◌ {A = AbstractStore} (Quot.mk s.store) (expected true true)
    both_ran s x y r sx sy idle =
        let (past, more, ordered, _) = threads_serve_in_order pydantic requests s0 s s r here in
        ap (λ u. Quot.mk u) (ordered.left idle)
        ∙ served-expected past s.threads ordered.answered
        ∙ rw
            (
              reply-listed (serves pydantic requests s0) s0 past s 0 x ordered sx,
              reply-listed (serves pydantic requests s0) s0 past s 1 y ordered sy,
            )
            refl

    -- Two requests that create users of different names under different ids, among any requests that
    -- only read: whatever their threads do, in any two states where both are answered and the lock is
    -- free every lookup by id and by name finds the same.
    pub schedules_agree :
        (s t : System Store Answer) (x y x' y' : Answer)
        → Reach (arrived pydantic requests s0) s
        → Reach (arrived pydantic requests s0) t
        → s.threads 0 ≡ finished x
        → s.threads 1 ≡ finished y
        → t.threads 0 ≡ finished x'
        → t.threads 1 ≡ finished y'
        → s.holder ≡ none
        → t.holder ≡ none
        → SameStore s.store t.store
    schedules_agree s t x y x' y' r r' sx sy tx ty s_free t_free =
        exact s.store t.store
          (both_ran s x y r sx sy s_free ∙ sym (both_ran t x' y' r' tx ty t_free))
