-- ===== src/Flow/Sections.antt =====
-- The routes of apps/flow/src/novon/flow/api/routes.py as code under `_FLOWS_LOCK`, one access for each look
-- at, or write to, `_FLOWS`.
use platform_backend.Prelude.{
  ℕ, String, ◌≡◌, refl, inl, inr, List, string_eq, if◌then◌else◌, Option-cases,
}
use platform_backend.Lock.{Section, leaves, access, reads, writes, item, run}
use platform_backend.Dict.{Dict, get, has, put, pop, values}
use platform_backend.Dict.Laws.{has_iff, has_of_get}
use platform_backend.Core.ModelUtils.{Value, partial_update_dict}
use platform_backend.Core.ModelUtils.Conforms.{ModelCopy}
use platform_backend.FlowApi.{
  FlowResponse, FlowField, field_name, attr, FlowCreate, flow_response_fields,
}
use platform_backend.Uc.{Reply, ok, unhandled}
use platform_backend.Flow.{
  Store, not_found, list_flows, get_flow, flow_id_of, new_flow, create_flow, updated_flow,
  update_flow, delete_flow,
}

-- A request for one of the routes. A creation carries the time and the UUID that its route draws, and an
-- update its dumped payload and the time.
pub data Request : Type 0 where
  lists : Request
  gets : (flow_id : String) → Request
  creates : (payload : FlowCreate) (now : ℕ) (uuid : String) → Request
  updates : (flow_id : String) (dumped : Dict String Value) (now : ℕ) → Request
  deletes : (flow_id : String) → Request

pub data Answer : Type 0 where
  flows : Reply (List FlowResponse) → Answer
  flow : Reply FlowResponse → Answer
  nothing : Reply (Unit {0}) → Answer

abbrev pub Code : Type 0
Code = Section Store Answer

unfoldable pub list_section : Code
list_section = reads (λ s. leaves (flows (ok (values s))))

unfoldable pub get_flow_section : String → Code
get_flow_section flow_id = reads (λ s.
    if has flow_id s
    then reads (λ s. item (get flow_id s) (leaves (flow unhandled)) (λ f. leaves (flow (ok f))))
    else leaves (flow not_found))

-- The flow is built before the lock is taken.
unfoldable pub create_flow_section : FlowCreate → ℕ → String → Code
create_flow_section payload now uuid =
    writes (put (flow_id_of uuid) (new_flow payload now uuid))
      (leaves (flow (ok (new_flow payload now uuid))))

-- `del _FLOWS[flow_id]` raises a KeyError where the key is missing.
unfoldable pub delete_flow_section : String → Code
delete_flow_section flow_id = reads (λ s.
    if has flow_id s
    then access (pop flow_id)
        (λ s. item (get flow_id s) (leaves (nothing unhandled)) (λ f. leaves (nothing (ok tt))))
    else leaves (nothing not_found))

run-get_flow_section :
    (flow_id : String) (s : Store)
    → run (get_flow_section flow_id) s ≡ (flow (get_flow flow_id s), s)
unfolding get_flow_section get_flow
run-get_flow_section flow_id s = elim (Option-cases (get flow_id s)) [
  | inl missing ↦ rw (run, (has_iff _ _).1 missing, missing) refl
  | inr (f, stored) ↦ rw (run, has_of_get flow_id f s stored, stored) refl
]

run-delete_flow_section :
    (flow_id : String) (s : Store)
    → run (delete_flow_section flow_id) s
      ≡ (nothing (delete_flow flow_id s).0, (delete_flow flow_id s).1)
unfolding delete_flow_section delete_flow
run-delete_flow_section flow_id s = elim (Option-cases (get flow_id s)) [
  | inl missing ↦ rw (run, (has_iff _ _).1 missing, missing) refl
  | inr (f, stored) ↦ rw (run, has_of_get flow_id f s stored, stored) refl
]

module _ (pydantic : ModelCopy FlowResponse FlowField field_name attr) where
  unfoldable pub update_flow_section : String → Dict String Value → ℕ → Code
  update_flow_section flow_id dumped now = reads (λ s.
      if has flow_id s
      then reads (λ s. item (get flow_id s) (leaves (flow unhandled)) (λ existing.
        item (partial_update_dict dumped flow_response_fields) (leaves (flow unhandled)) (λ update.
          writes (put flow_id (updated_flow pydantic existing update now))
            (leaves (flow (ok (updated_flow pydantic existing update now)))))))
      else leaves (flow not_found))

  unfoldable pub section : Request → Code
  section lists = list_section
  section (gets flow_id) = get_flow_section flow_id
  section (creates payload now uuid) = create_flow_section payload now uuid
  section (updates flow_id dumped now) = update_flow_section flow_id dumped now
  section (deletes flow_id) = delete_flow_section flow_id

  -- The whole route as one step on the store.
  unfoldable pub route : Request → Store → Answer × Store
  route lists s = (flows (list_flows s), s)
  route (gets flow_id) s = (flow (get_flow flow_id s), s)
  route (creates payload now uuid) s =
      (flow (create_flow payload now uuid s).0, (create_flow payload now uuid s).1)
  route (updates flow_id dumped now) s = (
    flow (update_flow pydantic flow_id dumped now s).0,
    (update_flow pydantic flow_id dumped now s).1,
  )
  route (deletes flow_id) s = (nothing (delete_flow flow_id s).0, (delete_flow flow_id s).1)

  run-update_flow_section :
      (flow_id : String) (dumped : Dict String Value) (now : ℕ) (s : Store)
      → run (update_flow_section flow_id dumped now) s ≡ (
        flow (update_flow pydantic flow_id dumped now s).0,
        (update_flow pydantic flow_id dumped now s).1,
      )
  unfolding update_flow_section update_flow
  run-update_flow_section flow_id dumped now s = elim (Option-cases (get flow_id s)) [
    | inl missing ↦ rw (run, (has_iff _ _).1 missing, missing) refl
    | inr (existing, stored) ↦
        elim (Option-cases (partial_update_dict dumped flow_response_fields)) [
          | inl failed ↦ rw (run, has_of_get flow_id existing s stored, stored, failed) refl
          | inr (update, computed) ↦
              rw (run, has_of_get flow_id existing s stored, stored, computed) refl
        ]
  ]

  pub run-flow_section : (request : Request) (s : Store) → run (section request) s ≡ route request s
  unfolding section route list_section list_flows create_flow_section create_flow
  run-flow_section lists s = refl
  run-flow_section (gets flow_id) s = run-get_flow_section flow_id s
  run-flow_section (creates payload now uuid) s = refl
  run-flow_section (updates flow_id dumped now) s = run-update_flow_section flow_id dumped now s
  run-flow_section (deletes flow_id) s = run-delete_flow_section flow_id s
