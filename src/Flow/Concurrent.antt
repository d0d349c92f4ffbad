-- ===== src/Flow/Concurrent.antt =====
-- The flow routes in a thread pool: any number of requests at once, interleaved access by access.
use platform_backend.Prelude.{
  ℕ, String, ◌≡◌, ◌≢◌, ◌==◌, refl, sym, ap, ◌∙◌, inl, inr, true, List, [], ◌∷◌, Option, none, some,
  string_eq, nat_eq, contains, Option-cases, Bool-cases,
}
use platform_backend.Lock.Threads.{System, Reach, start, finished, here}
use platform_backend.Lock.Serial.{listed_cons}
use platform_backend.Lock.Order.{served, IsOrdered, Reach-IsOrdered}
use platform_backend.Dict.{Dict, get}
use platform_backend.Dict.Laws.{get-put_ne, get-pop, get-pop_self}
use platform_backend.Core.ModelUtils.{Value, partial_update_dict}
use platform_backend.Core.ModelUtils.Conforms.{ModelCopy, IsDumped}
use platform_backend.FlowApi.{
  FlowResponse, FlowField, field_name, attr, flow_update_fields, flow_response_fields,
}
use platform_backend.Flow.{Store, flow_id_of, create_flow, update_flow, delete_flow}
use platform_backend.Flow.Invariant.{IsConsistent}
use platform_backend.Flow.Behaviour.{Step, Step-IsConsistent}
use platform_backend.Flow.Sections.{
  Request, lists, gets, creates, updates, deletes, Answer, section, route, run-flow_section,
}

-- The id that a creation draws.
abbrev pub drawn : Request → Option String
drawn (creates payload now uuid) = some (flow_id_of uuid)
drawn request = none

-- pydantic has validated the payload of an update.
abbrev pub IsValidated : Request → Type 0
IsValidated (updates flow_id dumped now) = IsDumped flow_update_fields dumped
IsValidated request = Unit

module _ (pydantic : ModelCopy FlowResponse FlowField field_name attr) where
  flow_route-IsConsistent :
      (request : Request) (s : Store)
      → IsValidated request
      → IsConsistent s
      → IsConsistent (route pydantic request s).1
  unfolding route
  flow_route-IsConsistent lists s valid h = h
  flow_route-IsConsistent (gets flow_id) s valid h = h
  flow_route-IsConsistent (creates payload now uuid) s valid h =
      Step-IsConsistent pydantic (Step.creates payload now uuid refl) h
  flow_route-IsConsistent (updates flow_id dumped now) s valid h =
      Step-IsConsistent pydantic (Step.updates flow_id dumped now valid refl) h
  flow_route-IsConsistent (deletes flow_id) s valid h =
      Step-IsConsistent pydantic (Step.deletes flow_id refl) h

  absent-update_flow :
      (flow_id : String) (dumped : Dict String Value) (now : ℕ) (id : String) (s : Store)
      → get id s ≡ none
      → get id (update_flow pydantic flow_id dumped now s).1 ≡ none
  unfolding update_flow
  absent-update_flow flow_id dumped now id s h = elim (Option-cases (get flow_id s)) [
    | inl missing ↦ rw missing h
    | inr (existing, stored) ↦
        elim (Option-cases (partial_update_dict dumped flow_response_fields)) [
          | inl failed ↦ rw (stored, failed) h
          | inr (update, computed) ↦
              rw (stored, computed) (get-put_ne _ s (λ same. cc (same, h, stored)) ∙ h)
        ]
  ]

  absent-delete_flow :
      (flow_id id : String) (s : Store) → get id s ≡ none → get id (delete_flow flow_id s).1 ≡ none
  unfolding delete_flow
  absent-delete_flow flow_id id s h = elim (Option-cases (get flow_id s)) [
    | inl missing ↦ rw missing h
    | inr (f, stored) ↦ rw stored (elim (Bool-cases (flow_id == id)) [
      | inl same ↦ rw (get-pop flow_id id s, same) refl
      | inr other ↦ rw (get-pop flow_id id s, other) h
    ])
  ]

  -- A request adds no other id than the one that it draws.
  absent-flow_route :
      (request : Request) (id : String) (s : Store)
      → drawn request ≢ some id
      → get id s ≡ none
      → get id (route pydantic request s).1 ≡ none
  unfolding route create_flow
  absent-flow_route lists id s other h = h
  absent-flow_route (gets flow_id) id s other h = h
  absent-flow_route (creates payload now uuid) id s other h =
      get-put_ne _ s (λ same. other (ap some same)) ∙ h
  absent-flow_route (updates flow_id dumped now) id s other h =
      absent-update_flow flow_id dumped now id s h
  absent-flow_route (deletes flow_id) id s other h = absent-delete_flow flow_id id s h

  absent-deleted : (id : String) (s : Store) → get id (delete_flow id s).1 ≡ none
  unfolding delete_flow
  absent-deleted id s = elim (Option-cases (get id s)) [
    | inl missing ↦ rw missing missing
    | inr (f, stored) ↦ rw stored (get-pop_self id s)
  ]

  deleted_by :
      (request : Request) (id : String) (s : Store)
      → request ≡ deletes id
      → get id (route pydantic request s).1 ≡ none
  unfolding route
  deleted_by request id s e = rw e (absent-deleted id s)

  module _ (requests : ℕ → Request) (s0 : Store) where
    abbrev pub arrived : System Store Answer
    arrived = start (λ i. section pydantic (requests i)) s0

    abbrev pub serves : ℕ → Store → Answer × Store
    serves i = route pydantic (requests i)

    pub in_order :
        (s : System Store Answer) → Reach arrived s → (past : List ℕ) × IsOrdered serves s0 past s
    in_order s r =
        let (past, more, ordered, _) =
          Reach-IsOrdered serves s0 (λ i. section pydantic (requests i))
            (λ i. run-flow_section pydantic (requests i)) s s r here in
        (past, ordered)

    pub served-IsConsistent :
        (past : List ℕ)
        → ((i : ℕ) → IsValidated (requests i))
        → IsConsistent s0
        → IsConsistent (served serves s0 past)
    served-IsConsistent [] valid h = h
    served-IsConsistent (i ∷ past) valid h =
        flow_route-IsConsistent (requests i) (served serves s0 past) (valid i)
          (served-IsConsistent past valid h)

    -- However the threads of flow requests interleave, access by access, from a consistent store and
    -- with validated payloads, there is a sequence of the requests, each one whole route, of which
    -- exactly the threads in it have replies, those of the sequence; whenever the lock is free the
    -- store is the one that the sequence leaves, and consistent.
    pub flow_threads-serve_in_order :
        (s : System Store Answer)
        → ((i : ℕ) → IsValidated (requests i))
        → IsConsistent s0
        → Reach arrived s
        → (past : List ℕ) × IsOrdered serves s0 past s × (s.holder ≡ none → IsConsistent s.store)
    flow_threads-serve_in_order s valid h r =
        let (past, ordered) = in_order s r in
        (past, ordered, λ idle. rw (ordered.left idle) (served-IsConsistent past valid h))

    module _ (flow_id : String) (i : ℕ) (deleter : requests i ≡ deletes flow_id)
        (unused : (j : ℕ) → drawn (requests j) ≢ some flow_id) where
      served-deleted :
          (past : List ℕ) → contains i past ≡ true → get flow_id (served serves s0 past) ≡ none
      served-deleted [] h = cc
      served-deleted (j ∷ past) h = elim (listed_cons i j past h) [
        | inl same ↦
            deleted_by (requests j) flow_id (served serves s0 past)
              (ap requests (sym same) ∙ deleter)
        | inr before ↦
            absent-flow_route (requests j) flow_id (served serves s0 past) (unused j)
              (served-deleted past before)
      ]

      -- Once a thread's deletion of a flow is answered, whenever the lock is free, the flow is not in
      -- the store, whatever other threads update or delete and however they interleave with it, as long
      -- as no creation draws its id.
      pub deleted_stays_deleted :
          (s : System Store Answer) (reply : Answer)
          → Reach arrived s
          → s.threads i ≡ finished reply
          → s.holder ≡ none
          → get flow_id s.store ≡ none
      deleted_stays_deleted s reply r done idle =
          let (past, ordered) = in_order s r in
          elim (Bool-cases (contains i past)) [
            | inl counted ↦ rw (ordered.left idle) (served-deleted past counted)
            | inr missed ↦ absurd (ordered.unanswered i reply missed done)
          ]
