-- ===== src/Tests/FlowThreads.antt =====
-- The flow routes in threads, at concrete inputs: a deletion and updates of one flow at once.
use platform_backend.Prelude.{
  ℕ, zero, suc, ◌≡◌, ◌≢◌, refl, none, some, List, string_eq, nat_eq, none-ne-some,
}
use platform_backend.Lock.Threads.{
  System, finished, acquires, accesses, releases, Reach, here, next,
}
use platform_backend.Lock.Order.{IsOrdered}
use platform_backend.Lock.Progress.{joined}
use platform_backend.Dict.{get, has, pop}
use platform_backend.Uc.{ok}
use platform_backend.Flow.{Store, not_found}
use platform_backend.Flow.Invariant.{IsConsistent}
use platform_backend.Flow.Behaviour.{Reach-IsConsistent_of_flows}
use platform_backend.Flow.Sections.{
  Request, updates, deletes, Answer, flow, nothing, section, delete_flow_section,
  update_flow_section,
}
use platform_backend.Flow.Concurrent.{
  arrived, serves, drawn, IsValidated, flow_threads-serve_in_order, deleted_stays_deleted,
}
use platform_backend.Flow.Typed.{IsTyped, flow_threads-IsTyped}
use platform_backend.Tests.Flows.{copying, stored, clearing, clearing-IsDumped, Reach-stored}

-- Thread 0 deletes the flow that every other thread updates.
abbrev mixed : ℕ → Request
mixed zero = deletes "flow_1"
mixed (suc n) = updates "flow_1" clearing n

mixed-IsValidated : (i : ℕ) → IsValidated (mixed i)
mixed-IsValidated zero = tt
mixed-IsValidated (suc i) = clearing-IsDumped

unfoldable deletion : (t : System Store Answer) × Reach (arrived copying mixed stored) t
unfolding section delete_flow_section has get pop
deletion = (
  _,
  next
      (next (next (next here (acquires 0 _ refl refl refl)) (accesses 0 _ _ refl refl))
        (accesses 0 _ _ refl refl))
      (releases 0 _ refl refl),
)

-- Thread 4 comes too late to update.
unfoldable late_update : (t : System Store Answer) × Reach deletion.0 t
unfolding deletion section delete_flow_section update_flow_section has get pop
late_update = (
  _,
  next (next (next here (acquires 4 _ refl refl refl)) (accesses 4 _ _ refl refl))
      (releases 4 _ refl refl),
)

both : Reach (arrived copying mixed stored) late_update.0
both = joined deletion.1 late_update.1

flow_threads-serve_in_order_example :
    (past : List ℕ) × IsOrdered (serves copying mixed stored) stored past late_update.0
    × (late_update.0.holder ≡ none → IsConsistent late_update.0.store)
flow_threads-serve_in_order_example =
    flow_threads-serve_in_order copying mixed stored late_update.0 mixed-IsValidated
      (Reach-IsConsistent_of_flows copying stored Reach-stored) both

none_drawn : (j : ℕ) → drawn (mixed j) ≢ some "flow_1"
none_drawn zero h = none-ne-some h
none_drawn (suc j) h = none-ne-some h

deletion_answered : late_update.0.threads 0 ≡ finished (nothing (ok tt))
unfolding late_update deletion
deletion_answered = refl

update_refused : late_update.0.threads 4 ≡ finished (flow not_found)
unfolding late_update deletion
update_refused = refl

lock_free : late_update.0.holder ≡ none
unfolding late_update
lock_free = refl

deleted_stays_deleted_example : get "flow_1" late_update.0.store ≡ none
deleted_stays_deleted_example =
    deleted_stays_deleted copying mixed stored "flow_1" 0 refl none_drawn late_update.0
      (nothing (ok tt)) both deletion_answered lock_free

flow_threads-IsTyped_example : IsTyped (flow not_found)
flow_threads-IsTyped_example =
    flow_threads-IsTyped copying mixed stored mixed-IsValidated
      (Reach-IsConsistent_of_flows copying stored Reach-stored) late_update.0 4 (flow not_found)
      both update_refused
