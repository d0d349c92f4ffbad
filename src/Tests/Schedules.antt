-- ===== src/Tests/Schedules.antt =====
-- Two creations at once, in both orders.
use platform_backend.Prelude.{
  ℕ, zero, suc, ◌≡◌, ◌≢◌, refl, [], ◌∷◌, none, string_eq, nat_eq, ne_of_beq,
}
use platform_backend.Lock.Threads.{
  System, finished, acquires, accesses, releases, Reach, here, next,
}
use platform_backend.Dict.{get, has, put}
use platform_backend.Core.ModelUtils.{Value, str, value_eq}
use platform_backend.Uc.{Store, empty, ok, user_id_of}
use platform_backend.Uc.Sections.{
  Request, lists, creates, Answer, user, section, create_user_section,
}
use platform_backend.Uc.Concurrent.{arrived}
use platform_backend.Uc.Abstract.{SameStore}
use platform_backend.Uc.Abstract.Schedules.{schedules_agree}
use platform_backend.Tests.Users.{copying, payload_of, alice, bob}

-- Thread 0 creates alice, thread 1 bob, and the others list the users.
abbrev both : ℕ → Request
both zero = creates (payload_of "alice") 1 "1"
both (suc zero) = creates (payload_of "bob") 2 "2"
both (suc (suc n)) = lists

unfoldable alice_first : (t : System Store Answer) × Reach (arrived copying both empty) t
unfolding section create_user_section has get put
alice_first = (
  _,
  next
      (next
        (next
          (next
            (next
              (next
                (next
                  (next (next (next here (acquires 0 _ refl refl refl)) (accesses 0 _ _ refl refl))
                    (accesses 0 _ _ refl refl))
                  (accesses 0 _ _ refl refl))
                (releases 0 _ refl refl))
              (acquires 1 _ refl refl refl))
            (accesses 1 _ _ refl refl))
          (accesses 1 _ _ refl refl))
        (accesses 1 _ _ refl refl))
      (releases 1 _ refl refl),
)

unfoldable bob_first : (t : System Store Answer) × Reach (arrived copying both empty) t
unfolding section create_user_section has get put
bob_first = (
  _,
  next
      (next
        (next
          (next
            (next
              (next
                (next
                  (next (next (next here (acquires 1 _ refl refl refl)) (accesses 1 _ _ refl refl))
                    (accesses 1 _ _ refl refl))
                  (accesses 1 _ _ refl refl))
                (releases 1 _ refl refl))
              (acquires 0 _ refl refl refl))
            (accesses 0 _ _ refl refl))
          (accesses 0 _ _ refl refl))
        (accesses 0 _ _ refl refl))
      (releases 0 _ refl refl),
)

alice_first_answers :
    (alice_first.0.threads 0 ≡ finished (user (ok alice)))
    × (alice_first.0.threads 1 ≡ finished (user (ok bob)))
    × (alice_first.0.holder ≡ none)
    × (alice_first.0.store.users ≡ ("user_1", alice) ∷ ("user_2", bob) ∷ [])
unfolding alice_first put
alice_first_answers = (refl, refl, refl, refl)

bob_first_answers :
    (bob_first.0.threads 0 ≡ finished (user (ok alice)))
    × (bob_first.0.threads 1 ≡ finished (user (ok bob)))
    × (bob_first.0.holder ≡ none)
    × (bob_first.0.store.users ≡ ("user_2", bob) ∷ ("user_1", alice) ∷ [])
unfolding bob_first put
bob_first_answers = (refl, refl, refl, refl)

names_differ : ◌≢◌ {A = Value} (str "alice") (str "bob")
names_differ = ne_of_beq {A = Value} (str "alice") (str "bob") refl

ids_differ : user_id_of "1" ≢ user_id_of "2"
ids_differ = ne_of_beq (user_id_of "1") (user_id_of "2") refl

schedules_agree_example : SameStore alice_first.0.store bob_first.0.store
schedules_agree_example =
    schedules_agree copying both empty (payload_of "alice") (payload_of "bob") 1 2 "1" "2" refl refl
      (λ k. tt) names_differ ids_differ alice_first.0 bob_first.0 (user (ok alice)) (user (ok bob))
      (user (ok alice)) (user (ok bob)) alice_first.1 bob_first.1 alice_first_answers.0
      alice_first_answers.1 bob_first_answers.0 bob_first_answers.1 alice_first_answers.2
      bob_first_answers.2
