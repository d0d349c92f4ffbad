-- ===== src/Tests/Threads.antt =====
-- The user routes in threads, at concrete inputs: a creation and deletions at once.
use platform_backend.Prelude.{
  eq_iff, ◌∙◌, ℕ, zero, suc, sym, some_inj, String, ◌≡◌, ◌≢◌, refl, none, some, List, ◌++◌,
  string_eq, nat_eq, none-ne-some,
}
use platform_backend.Lock.Threads.{
  System, waiting, inside, finished, acquires, accesses, releases, Reach, here, next, update,
}
use platform_backend.Lock.Progress.{joined}
use platform_backend.Lock.Order.{IsOrdered}
use platform_backend.Lock.Race.{HasOneWinner}
use platform_backend.Dict.{get, has, put, pop}
use platform_backend.Core.ModelUtils.{value_eq}
use platform_backend.Uc.{user_id_of, Store, ok, conflict, not_found}
use platform_backend.Uc.Invariant.{IsConsistent}
use platform_backend.Uc.Sections.{
  Request, creates, updates, gets, deletes, Answer, user, nothing, section, create_user_section,
  delete_user_section, get_user_section,
}
use platform_backend.Uc.Concurrent.{arrived, serves, threads_serve_in_order}
use platform_backend.Uc.Concurrent.Consistent.{drawn, IsValidated, threads-IsConsistent}
use platform_backend.Uc.Concurrent.Races.{
  CreatesNamed, FreesNothing, IsCreated, Holds, concurrent_creates,
}
use platform_backend.Uc.Concurrent.Deletions.{concurrent_deletes}
use platform_backend.Uc.Concurrent.Typed.{IsTyped, threads-IsTyped}
use platform_backend.Uc.Concurrent.Kept.{target}
use platform_backend.Uc.Concurrent.Later.{created_user_is_read_later}
use platform_backend.Tests.Users.{
  renaming, copying, payload_of, bob, one_user, two_users, one_user-IsConsistent, bob_free,
  bob_stored,
}

-- Thread 0 creates bob, and every other thread deletes alice.
abbrev mixed : ℕ → Request
mixed zero = creates (payload_of "bob") 2 "2"
mixed (suc n) = deletes "user_1"

-- Thread 0 is inside.
abbrev entered : System Store Answer
entered = record {
  store = one_user;
  holder = some 0;
  threads = update 0 (inside (section copying (mixed 0))) (arrived copying mixed one_user).threads;
}

Reach-entered : Reach (arrived copying mixed one_user) entered
Reach-entered = next here (acquires 0 _ refl refl refl)

-- It finds the name free, stores bob, then the name, and leaves.
unfoldable creation : (t : System Store Answer) × Reach entered t
unfolding section create_user_section has get put
creation = (
  _,
  next
      (next (next (next here (accesses 0 _ _ refl refl)) (accesses 0 _ _ refl refl))
        (accesses 0 _ _ refl refl))
      (releases 0 _ refl refl),
)

Reach-created : Reach (arrived copying mixed one_user) creation.0
Reach-created = joined Reach-entered creation.1

bob_answered : creation.0.threads 0 ≡ finished (user (ok bob))
unfolding creation
bob_answered = refl

lock_free : creation.0.holder ≡ none
unfolding creation
lock_free = refl

threads_serve_in_order_example :
    (past more : List ℕ) × IsOrdered (serves copying mixed one_user) one_user past entered
    × IsOrdered (serves copying mixed one_user) one_user (more ++ past) creation.0
threads_serve_in_order_example =
    threads_serve_in_order copying mixed one_user entered creation.0 Reach-entered creation.1

mixed-IsValidated : (i : ℕ) → IsValidated (mixed i)
mixed-IsValidated zero = tt
mixed-IsValidated (suc i) = tt

mixed-fresh : (i : ℕ) (id : String) → drawn (mixed i) ≡ some id → get id one_user.users ≡ none
unfolding get
mixed-fresh zero id h = rw (sym (some_inj h)) refl
mixed-fresh (suc i) id h = absurd (none-ne-some h)

mixed-distinct :
    (i j : ℕ) (id : String) → drawn (mixed i) ≡ some id → drawn (mixed j) ≡ some id → i ≡ j
mixed-distinct zero zero id h k = refl
mixed-distinct zero (suc j) id h k = absurd (none-ne-some k)
mixed-distinct (suc i) j id h k = absurd (none-ne-some h)

threads-IsConsistent_example : IsConsistent creation.0.store
threads-IsConsistent_example =
    threads-IsConsistent copying mixed one_user mixed-IsValidated mixed-fresh mixed-distinct
      one_user-IsConsistent creation.0 Reach-created lock_free

threads-IsTyped_example : IsTyped (user (ok bob))
threads-IsTyped_example =
    threads-IsTyped copying mixed one_user mixed-IsValidated mixed-fresh mixed-distinct
      one_user-IsConsistent creation.0 0 (user (ok bob)) Reach-created bob_answered

-- Threads 0 and 1 create bob; the others read alice.
abbrev bobs : ℕ → Request
bobs zero = creates (payload_of "bob") 2 "2"
bobs (suc zero) = creates (payload_of "bob") 3 "3"
bobs (suc (suc i)) = gets "user_1"

bobs_free_nothing : (i : ℕ) → FreesNothing (bobs i)
bobs_free_nothing zero = tt
bobs_free_nothing (suc zero) = tt
bobs_free_nothing (suc (suc i)) = tt

other_ids : {A : Type 0} {id : String} → some "user_2" ≡ some id → some "user_3" ≡ some id → A
other_ids h k = cc ((eq_iff "user_2" "user_3").1 (some_inj (h ∙ sym k)))

bobs-distinct :
    (i j : ℕ) (id : String) → drawn (bobs i) ≡ some id → drawn (bobs j) ≡ some id → i ≡ j
bobs-distinct zero zero id h k = refl
bobs-distinct zero (suc zero) id h k = other_ids h k
bobs-distinct zero (suc (suc j)) id h k = absurd (none-ne-some k)
bobs-distinct (suc zero) zero id h k = other_ids k h
bobs-distinct (suc zero) (suc zero) id h k = refl
bobs-distinct (suc zero) (suc (suc j)) id h k = absurd (none-ne-some k)
bobs-distinct (suc (suc i)) j id h k = absurd (none-ne-some h)

unfoldable won : (t : System Store Answer) × Reach (arrived copying bobs one_user) t
unfolding section create_user_section has get put
won = (
  _,
  next
      (next
        (next (next (next here (acquires 1 _ refl refl refl)) (accesses 1 _ _ refl refl))
          (accesses 1 _ _ refl refl))
        (accesses 1 _ _ refl refl))
      (releases 1 _ refl refl),
)

-- Thread 0 comes too late.
unfoldable lost : (t : System Store Answer) × Reach won.0 t
unfolding won section create_user_section has get put
lost = (
  _,
  next (next (next here (acquires 0 _ refl refl refl)) (accesses 0 _ _ refl refl))
      (releases 0 _ refl refl),
)

concurrent_creates_example :
    HasOneWinner
      (λ i. CreatesNamed "bob" (bobs i))
      (λ winner. IsCreated (bobs winner))
      (λ winner. Holds (bobs winner))
      (user conflict)
      lost.0
concurrent_creates_example =
    concurrent_creates copying "bob" bobs one_user bobs_free_nothing bobs-distinct bob_free lost.0
      (joined won.1 lost.1)

-- Every thread but 0 deletes bob, which thread 3 has done; thread 0 renames him.
abbrev deletions : ℕ → Request
deletions zero = updates "user_2" (renaming "bert") 9
deletions (suc i) = deletes "user_2"

deletions_draw_none : (i : ℕ) → drawn (deletions i) ≢ some "user_2"
deletions_draw_none zero = none-ne-some
deletions_draw_none (suc i) = none-ne-some

unfoldable deletion : (t : System Store Answer) × Reach (arrived copying deletions two_users) t
unfolding section delete_user_section has get pop
deletion = (
  _,
  next
      (next
        (next (next (next here (acquires 3 _ refl refl refl)) (accesses 3 _ _ refl refl))
          (accesses 3 _ _ refl refl))
        (accesses 3 _ _ refl refl))
      (releases 3 _ refl refl),
)

concurrent_deletes_example :
    HasOneWinner
      (λ i. deletions i ≡ deletes "user_2")
      (λ winner a. a ≡ nothing (ok tt))
      (λ winner t. get "user_2" t.users ≡ none)
      (nothing not_found)
      deletion.0
concurrent_deletes_example =
    concurrent_deletes copying "user_2" bob deletions two_users deletions_draw_none bob_stored
      deletion.0 deletion.1

-- Thread 0 creates bob, and every other thread reads him.
abbrev readers : ℕ → Request
readers zero = creates (payload_of "bob") 2 "2"
readers (suc n) = gets "user_2"

unfoldable bob_created : (t : System Store Answer) × Reach (arrived copying readers one_user) t
unfolding section create_user_section has get put
bob_created = (
  _,
  next
      (next
        (next (next (next here (acquires 0 _ refl refl refl)) (accesses 0 _ _ refl refl))
          (accesses 0 _ _ refl refl))
        (accesses 0 _ _ refl refl))
      (releases 0 _ refl refl),
)

unfoldable bob_read : (t : System Store Answer) × Reach bob_created.0 t
unfolding bob_created section create_user_section get_user_section has get put
bob_read = (
  _,
  next
      (next (next (next here (acquires 7 _ refl refl refl)) (accesses 7 _ _ refl refl))
        (accesses 7 _ _ refl refl))
      (releases 7 _ refl refl),
)

creation_answered : bob_created.0.threads 0 ≡ finished (user (ok bob))
unfolding bob_created
creation_answered = refl

reader_waits : bob_created.0.threads 7 ≡ waiting (section copying (readers 7))
unfolding bob_created
reader_waits = refl

read_answered : bob_read.0.threads 7 ≡ finished (user (ok bob))
unfolding bob_read bob_created
read_answered = refl

one_writer : (k : ℕ) → 0 ≢ k → target (readers k) ≢ some (user_id_of "2")
one_writer zero other h = other refl
one_writer (suc k) other h = none-ne-some h

created_user_is_read_later_example : bob_read.0.threads 7 ≡ finished (user (ok bob))
created_user_is_read_later_example =
    created_user_is_read_later copying readers one_user 0 (payload_of "bob") 2 "2" bob refl
      one_writer bob_created.0 bob_read.0 7 (section copying (readers 7)) (user (ok bob)) refl
      bob_created.1 creation_answered reader_waits bob_read.1 read_answered
