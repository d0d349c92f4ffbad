-- ===== src/Bff/Flows/Server.antt =====
-- apps/flow/src/novon/flow/api/routes.py: what its routes answer, and the network in front of them.
use mathlib.Core.List.{Memᴰ}
use platform_backend.Prelude.{
  ℕ, String, ◌&◌, ◌≡◌, refl, false, Option, none, some, List, string_eq, Option-cases, inl, inr,
}
use platform_backend.Dict.{Dict, get, values}
use platform_backend.Core.Client.{
  Response, answered, service_error, unreadable, stop_iteration, escaped, ok, raised,
}
use platform_backend.Core.Client.Request.{Network}
use platform_backend.Core.Feign.Quote.{quote}
use platform_backend.Core.Feign.Call.{Called, done, refused, body_of}
use platform_backend.FlowApi.{FlowResponse, FlowCreate}
use platform_backend.FlowApi.Client.{Payloads}
use platform_backend.Uc.{Reply}
use platform_backend.Flow.{Store, found, flow_id_of, new_flow}
use platform_backend.Flow as Flow
use platform_backend.Flow.Invariant.{IsConsistent, IsFlowResponse}
use platform_backend.Dict.Listing.{listed_iff}
use platform_backend.Bff.{flow_read, flow_with_owner_read, map_called, success, answer}
use platform_backend.Bff.Replies.{has_slash, IsFinal, Fits}

found-IsFinal_of_flow : (o : Option FlowResponse) → IsFinal (found o)
found-IsFinal_of_flow none = refl
found-IsFinal_of_flow (some flow) = tt

pub get_flow-IsFinal : (id : String) (s : Store) → IsFinal (Flow.get_flow id s)
unfolding Flow.get_flow
get_flow-IsFinal id s = found-IsFinal_of_flow (get id s)

pub answer-map_called :
    {A B : Type 0} (f : A → B) (called : Called A) (a : A)
    → answer flow_read called ≡ success 200 a
    → answer flow_with_owner_read (map_called f called) ≡ success 200 (f a)
unfolding answer
answer-map_called f (done (ok x)) a h = cc
answer-map_called f (done (raised (service_error e))) a h = cc
answer-map_called f (done (raised unreadable)) a h = cc
answer-map_called f (done (raised stop_iteration)) a h = cc
answer-map_called f (done (raised (escaped text))) a h = cc
answer-map_called f (refused e) a h = cc

-- What the routes of a consistent store return is typed as the contract says.
pub get_flow-Fits :
    (id : String) (s : Store) → IsConsistent s → Fits IsFlowResponse (Flow.get_flow id s)
unfolding Flow.get_flow
get_flow-Fits id s h = elim (Option-cases (get id s)) [
  | inl missing ↦ rw missing tt
  | inr (flow, stored) ↦ rw stored (h.stored id flow stored).typed
]

abbrev pub AreFlowResponses : List FlowResponse → Type 0
AreFlowResponses flows = (flow : FlowResponse) → Memᴰ flow flows → IsFlowResponse flow

pub AreFlowResponses-values : (s : Store) → IsConsistent s → AreFlowResponses (values s)
AreFlowResponses-values s h flow listed =
    let (id, stored) = (listed_iff s flow h.distinct).0 listed in (h.stored id flow stored).typed

-- The network in front of the Flow service: it hands a request to its route and the reply back. A flow
-- id starts with "flow_", so its path is one segment unless it has a slash, which the text of a UUID
-- does not have. `now_of` and `uuid_of` are the clock and the next
-- uuid4 of the service, and `after` is the world once a flow is created.
pub record FlowServer {W J : Type 0} (network : Network W J)
    (respond : Reply FlowResponse → Response J)
    (respond_all : Reply (List FlowResponse) → Response J) (payloads : Payloads J)
    (store_of : W → Store) : Type 0 where
  pub now_of : W → ℕ
  pub uuid_of : W → String
  pub uuid_of_plain : (w : W) → has_slash (flow_id_of (uuid_of w)) ≡ false
  pub after : FlowCreate → W → W
  pub store_of-after :
      (payload : FlowCreate) (w : W)
      → store_of (after payload w)
        ≡ (Flow.create_flow payload (now_of w) (uuid_of w) (store_of w)).1
  pub serves_flow :
      (uuid : String) (headers : Dict String String) (w : W)
      → has_slash (flow_id_of uuid) ≡ false
      → network.send
          (record {
            method = "GET";
            path = "/flows/" & quote (flow_id_of uuid);
            headers = headers;
            json = none;
            params = none;
          })
          w
        ≡ (answered (respond (Flow.get_flow (flow_id_of uuid) (store_of w))), w)
  pub serves_flows :
      (headers : Dict String String) (w : W)
      → network.send
          (record {
            method = "GET";
            path = "/flows";
            headers = headers;
            json = none;
            params = none;
          })
          w
        ≡ (answered (respond_all (Flow.list_flows (store_of w))), w)
  pub serves_creation :
      (payload : FlowCreate) (headers : Dict String String) (w : W)
      → network.send
          (record {
            method = "POST";
            path = "/flows";
            headers = headers;
            json = body_of false (payloads.of_create payload);
            params = none;
          })
          w
        ≡ (
          answered (respond (Flow.create_flow payload (now_of w) (uuid_of w) (store_of w)).0),
          after payload w,
        )
