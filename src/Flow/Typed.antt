-- ===== src/Flow/Typed.antt =====
-- What the replies of the threads of flow requests hold.
use mathlib.Core.Path.{subst}
use mathlib.Core.List.{Memᴰ}
use platform_backend.Prelude.{ℕ, String, ◌≡◌, refl, inl, inr, string_eq, nat_eq, Option-cases}
use platform_backend.Lock.Threads.{finished, System, Reach}
use platform_backend.Lock.Order.{served}
use platform_backend.Lock.Replies.{after_all, reply-ComesFrom}
use platform_backend.Dict.{Dict, get}
use platform_backend.Dict.Listing.{listed_iff}
use platform_backend.Core.ModelUtils.{Value}
use platform_backend.Core.ModelUtils.Conforms.{ModelCopy, IsDumped}
use platform_backend.FlowApi.{FlowResponse, FlowField, field_name, attr, flow_update_fields}
use platform_backend.Uc.{Reply, ok, http_exception, unhandled}
use platform_backend.Flow.{Store, get_flow, list_flows, create_flow, update_flow, delete_flow}
use platform_backend.Flow.Invariant.{IsConsistent, IsFlowResponse}
use platform_backend.Flow.Behaviour.{
  get_flow_iff, new_flow-IsFlowResponse, update_flow-updates, update_flow-IsConsistent,
}
use platform_backend.Flow.Sections.{
  Request, lists, gets, creates, updates, deletes, Answer, flows, flow, nothing, route,
}
use platform_backend.Flow.Concurrent.{arrived, serves, IsValidated, in_order, served-IsConsistent}

-- A reply is a 404 or a result of that kind; no other exception has left the route.
abbrev pub IsReply : {A : Type 0} → (A → Type 0) → Reply A → Type 0
IsReply P (ok a) = P a
IsReply P (http_exception status_code detail) = status_code ≡ 404
IsReply P unhandled = ⊥

-- Each flow in a reply is typed as `FlowResponse` says.
abbrev pub IsTyped : Answer → Type 0
IsTyped (flows reply) = IsReply (λ fs. (f : FlowResponse) → Memᴰ f fs → IsFlowResponse f) reply
IsTyped (flow reply) = IsReply IsFlowResponse reply
IsTyped (nothing reply) = IsReply (λ _. Unit) reply

get_flow-IsReply :
    (id : String) (s : Store) → IsConsistent s → IsReply IsFlowResponse (get_flow id s)
unfolding get_flow
get_flow-IsReply id s h = elim (Option-cases (get id s)) [
  | inl missing ↦ rw missing refl
  | inr (f, there) ↦ rw there (h.stored id f there).typed
]

list_flows-IsReply :
    (s : Store)
    → IsConsistent s
    → IsReply (λ fs. (f : FlowResponse) → Memᴰ f fs → IsFlowResponse f) (list_flows s)
unfolding list_flows
list_flows-IsReply s h f m =
    let (id, there) = (listed_iff s f h.distinct).0 m in (h.stored id f there).typed

delete_flow-IsReply :
    (flow_id : String) (s : Store) → IsReply (λ _. Unit {0}) (delete_flow flow_id s).0
unfolding delete_flow
delete_flow-IsReply flow_id s = elim (Option-cases (get flow_id s)) [
  | inl missing ↦ rw missing refl
  | inr (f, there) ↦ rw there tt
]

module _ (pydantic : ModelCopy FlowResponse FlowField field_name attr) where
  update_flow-IsReply :
      (flow_id : String) (dumped : Dict String Value) (now : ℕ) (s : Store)
      → IsDumped flow_update_fields dumped
      → IsConsistent s
      → IsReply IsFlowResponse (update_flow pydantic flow_id dumped now s).0
  update_flow-IsReply flow_id dumped now s valid h = elim (Option-cases (get flow_id s)) [
    | inl missing ↦ unfold update_flow in rw missing refl
    | inr (existing, there) ↦
        let (updated, succeeded, found_then, _, _, _) =
          update_flow-updates pydantic flow_id dumped now s existing valid
            ((get_flow_iff flow_id existing s).1 there) in
        let after = update_flow-IsConsistent pydantic flow_id dumped now s valid h in
        rw succeeded
          (after.stored flow_id updated ((get_flow_iff flow_id updated _).0 found_then)).typed
  ]

  route-IsTyped :
      (request : Request) (s : Store)
      → IsValidated request
      → IsConsistent s
      → IsTyped (route pydantic request s).0
  unfolding route
  route-IsTyped lists s valid h = list_flows-IsReply s h
  route-IsTyped (gets flow_id) s valid h = get_flow-IsReply flow_id s h
  route-IsTyped (creates payload now uuid) s valid h =
      unfold create_flow in new_flow-IsFlowResponse payload now uuid
  route-IsTyped (updates flow_id dumped now) s valid h =
      update_flow-IsReply flow_id dumped now s valid h
  route-IsTyped (deletes flow_id) s valid h = delete_flow-IsReply flow_id s

  module _ (requests : ℕ → Request) (s0 : Store) (valid : (i : ℕ) → IsValidated (requests i))
      (h0 : IsConsistent s0) where
    -- From a consistent store and with validated payloads, each reply that a thread of flow requests
    -- ever has is a 404 or a success, and never another exception, such as a KeyError; each flow in it
    -- is typed as `FlowResponse` says.
    pub flow_threads-IsTyped :
        (s : System Store Answer) (i : ℕ) (reply : Answer)
        → Reach (arrived pydantic requests s0) s
        → s.threads i ≡ finished reply
        → IsTyped reply
    flow_threads-IsTyped s i reply r done =
        let (past, ordered) = in_order pydantic requests s0 s r in
        elim (reply-ComesFrom (serves pydantic requests s0) s0 past s i reply ordered done) [
          | after_all before rest out same ↦ subst IsTyped same (
              route-IsTyped (requests i) (served (serves pydantic requests s0) s0 before) (valid i)
                (served-IsConsistent pydantic requests s0 before valid h0))
        ]
