-- ===== src/Tests/FlowService.antt =====
-- The flow routes of the BFF over a transport that runs the routes of the Flow service on its store.
use text.Mathlib.TextLemmas.{append_cancel_left, append_assoc, append-eq-nil_iff}
use platform_backend.Prelude.{
  ℕ, suc, String, ◌&◌, ◌≡◌, refl, sym, ap, ◌∙◌, false, Bool-cases, inl, inr, Option, none, some, [],
  ◌∷◌, ◌==◌, string_eq, if◌then◌else◌, leb, eq_iff,
}
use platform_backend.Dict.{get}
use platform_backend.Core.Client.{Response, answered, Returned}
use platform_backend.Core.Client.Request.{Network}
use platform_backend.Core.Feign.Quote.{quote}
use platform_backend.Core.Feign.Call.{Called}
use platform_backend.UcApi.Protocol.{UcApi}
use platform_backend.UcApi.Client.{Payloads, user_type}
use platform_backend.UcApi.Client as UcClient
use platform_backend.FlowApi.{FlowResponse, FlowCreate}
use platform_backend.FlowApi.Protocol.{FlowApi}
use platform_backend.FlowApi.Client.{flow_service_client}
use platform_backend.FlowApi.Client as FlowClient
use platform_backend.Uc.{ok}
use platform_backend.Flow as Flow
use platform_backend.Bff as Bff
use platform_backend.Bff.Replies.{has_slash}
use platform_backend.Bff.Flows.Server.{FlowServer}
use platform_backend.Tests.Retrying.{tenacity}
use platform_backend.Tests.Services.{
  Json, of_flow, of_flows, of_creation, validate, respond, flow_payloads,
}
use platform_backend.Tests.Transport.{seek, seek-get}

-- The Flow service: its store and the number of flows it has created, which serves as its clock.
abbrev FlowWorld : Type 0
FlowWorld = Flow.Store × ℕ

uuid_after : ℕ → String
uuid_after n = if leb n 0 then "0b5f6b2e" else "9d394c39"

plain_after : (n : ℕ) → has_slash (Flow.flow_id_of (uuid_after n)) ≡ false
unfolding uuid_after
plain_after n = elim (Bool-cases (leb n 0)) [
  | inl first ↦ rw first refl
  | inr later ↦ rw later refl
]

abbrev flow_after : FlowCreate → FlowWorld → FlowWorld
flow_after payload (s, n) = ((Flow.create_flow payload n (uuid_after n) s).1, suc n)

flow_read : String → Option FlowResponse → Flow.Store → Response Json
flow_read path (some flow) s = respond of_flow (ok flow)
flow_read path none s =
    if path == "/flows"
    then respond of_flows (Flow.list_flows s)
    else respond of_flow (Flow.found none)

flow_send : String → Option Json → FlowWorld → Response Json × FlowWorld
flow_send path (some (of_creation payload)) (s, n) =
    (respond of_flow (Flow.create_flow payload n (uuid_after n) s).0, flow_after payload (s, n))
flow_send path body (s, n) = (flow_read path (seek "/flows/" path s) s, (s, n))

flow_network : Network FlowWorld Json
flow_network = record {
  send = λ req w. let (r, w') = flow_send req.path req.json w in (answered r, w');
  warn = λ n of_n req w. w;
}

no_item : (x : String) → (("/flows/" & x) == "/flows") ≡ false
no_item x = elim (Bool-cases (("/flows/" & x) == "/flows")) [
  | inl same ↦
      let empty : "/" & x ≡ "" =
        append_cancel_left "/flows" ("/" & x) ""
          (sym (append_assoc "/flows" "/" x) ∙ (eq_iff ("/flows/" & x) "/flows").0 same) in
      cc ((append-eq-nil_iff {p = "/"} {q = x}).0 empty).0
  | inr apart ↦ apart
]

flow_read-found :
    (id : String) (o : Option FlowResponse) (s : Flow.Store)
    → flow_read ("/flows/" & quote id) o s ≡ respond of_flow (Flow.found o)
unfolding flow_read
flow_read-found id none s = rw (no_item (quote id)) refl
flow_read-found id (some flow) s = refl

not_listed : (s : Flow.Store) → seek "/flows/" "/flows" s ≡ none
not_listed [] = refl
not_listed ((k, flow) ∷ s) = rw (no_item (quote k)) (not_listed s)

flow_network-FlowServer :
    FlowServer flow_network (respond of_flow) (respond of_flows) flow_payloads (λ w. w.0)
unfolding flow_network flow_send flow_payloads flow_read Flow.get_flow
flow_network-FlowServer = record {
  now_of = λ w. w.1;
  uuid_of = λ w. uuid_after w.1;
  uuid_of_plain = λ w. plain_after w.1;
  after = flow_after;
  store_of-after = λ payload w. refl;
  serves_flow = λ uuid headers w plain.
      ap (λ r. (answered r, w))
        (ap (λ o. flow_read ("/flows/" & quote (Flow.flow_id_of uuid)) o w.0)
            (seek-get "/flows/" (Flow.flow_id_of uuid) w.0)
          ∙ flow_read-found (Flow.flow_id_of uuid) (get (Flow.flow_id_of uuid) w.0) w.0);
  serves_flows = λ headers w. ap (λ o. (answered (flow_read "/flows" o w.0), w)) (not_listed w.0);
  serves_creation = λ payload headers w. refl;
}

abbrev draft : FlowCreate
draft = record { name = "draft"; description = none }

abbrev over_flow : FlowApi FlowWorld (Called (Returned Json Json))
over_flow =
    FlowClient.service_client flow_network validate tenacity (flow_service_client 3 100 5000)
      flow_payloads

abbrev drafted : FlowResponse
drafted = Flow.new_flow draft 0 "0b5f6b2e"
