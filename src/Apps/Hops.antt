-- ===== src/Apps/Hops.antt =====
-- One request over two services: the BFF, and the service that it calls.
use platform_backend.Prelude.{
  ℕ, String, ◌≡◌, refl, ap, ◌∙◌, sym, ◌⊎◌, inl, inr, Bool, true, false, Option, none, some,
  string_eq, is_empty,
}
use platform_backend.Dict.{Dict, get}
use platform_backend.Core.Context.{HttpRequest, Supply, from_request, to_headers}
use platform_backend.Core.Context.Laws.{sent, get-to_headers}
use platform_backend.Core.Middleware.{HttpResponse, Dispatched, dispatch}
use platform_backend.Core.Middleware.Laws.{
  IsToken, token-ne-empty, dispatch_stamps, dispatch_continues, response_request_id, sanitize_draws,
}
use platform_backend.Core.AppFactory.{App, serve}
use platform_backend.Apps.{create_uc_app, create_flow_app, create_bff_app}

-- The context of a request whose state the middleware has set.
from_request_of_state :
    (request : HttpRequest) (user_id : Option String) (supply : Supply)
    (request_id trace_id : String)
    → request.state ≡ record { request_id = some request_id; trace_id = some trace_id }
    → is_empty request_id ≡ false
    → is_empty trace_id ≡ false
    → ((from_request request user_id supply).0.request_id ≡ some request_id)
      × ((from_request request user_id supply).0.trace_id ≡ some trace_id)
unfolding from_request
from_request_of_state request user_id supply request_id trace_id stamped has_id has_trace =
    rw (ap (λ s. s.request_id) stamped, ap (λ s. s.trace_id) stamped, has_id, has_trace)
      (refl, refl)

sent_token : (token : String) → is_empty token ≡ false → sent (some token) ≡ some token
sent_token token filled = rw filled refl

-- The transport delivers the two tracing headers that a client sends. Header names are read without
-- their case, and the receiving side keeps them in lower case.
pub record Delivers (headers : Dict String String) (received : HttpRequest) : Type 0 where
  pub request_id : get "x-request-id" received.headers ≡ get "X-Request-ID" headers
  pub trace_id : get "x-trace-id" received.headers ≡ get "X-Trace-ID" headers

module _ {S R T Q U V : Type 0} (bff_name : S → String) (bff_env : S) (bff_router : R)
    (bff_settings : Option S) (run : R → Bool → HttpRequest → U → HttpResponse × U)
    (name : T → String) (environment : T) (router : Q) (settings : Option T) (internal : App T Q)
    (answer : Q → Bool → HttpRequest → V → HttpResponse × V) where
  abbrev pub edge : HttpRequest → Supply → U → Dispatched U
  edge = serve run (create_bff_app bff_name bff_env bff_router bff_settings)

  -- The headers that the BFF sends on for a request of a user.
  abbrev pub sent_on : HttpRequest → Supply → U → Option String → Dict String String
  sent_on request supply w user_id =
      to_headers
        (from_request (edge request supply w).forwarded user_id (edge request supply w).supply).0

  internal_trusts :
      (internal ≡ create_uc_app name environment router settings)
        ⊎ (internal ≡ create_flow_app name environment router settings)
      → internal.trust_inbound_trace ≡ true
  unfolding create_uc_app create_flow_app
  internal_trusts (inl e) = ap (λ app. app.trust_inbound_trace) e
  internal_trusts (inr e) = ap (λ app. app.trust_inbound_trace) e

  received_ids :
      (request received : HttpRequest) (supply : Supply) (w : U) (user_id : Option String)
      (request_id trace_id : String)
      → (edge request supply w).forwarded.state
        ≡ record { request_id = some request_id; trace_id = some trace_id }
      → IsToken request_id
      → IsToken trace_id
      → Delivers (sent_on request supply w user_id) received
      → (get "x-request-id" received.headers ≡ some request_id)
        × (get "x-trace-id" received.headers ≡ some trace_id)
  received_ids request received supply w user_id request_id trace_id stamped good_id good_trace
        delivered =
      let has_id = token-ne-empty request_id good_id in
      let has_trace = token-ne-empty trace_id good_trace in
      let (id_kept, trace_kept) =
        from_request_of_state (edge request supply w).forwarded user_id
          (edge request supply w).supply request_id trace_id stamped has_id has_trace in
      let (_, id_sent, trace_sent, _) =
        get-to_headers
          (from_request (edge request supply w).forwarded user_id
            (edge request supply w).supply).0 in
      (
        delivered.request_id ∙ id_sent ∙ ap sent id_kept ∙ sent_token request_id has_id,
        delivered.trace_id ∙ trace_sent ∙ ap sent trace_kept ∙ sent_token trace_id has_trace,
      )

  -- If every UUID that the BFF may draw is a token, and the transport delivers the two tracing
  -- headers that the BFF sends on, then whatever its caller sends, UC or Flow sees the call with
  -- the same request ID and trace ID as the BFF does, draws no UUID, logs nothing, and answers with
  -- the request ID that the caller is answered with; and the trace ID is not the caller's but one
  -- of the next two UUIDs.
  pub hops_join :
      (request received : HttpRequest) (supply supply' : Supply) (w : U) (v : V)
      (user_id : Option String)
      → (internal ≡ create_uc_app name environment router settings)
        ⊎ (internal ≡ create_flow_app name environment router settings)
      → ((n : ℕ) → IsToken (supply n))
      → Delivers (sent_on request supply w user_id) received
      → ((serve answer internal received supply' v).forwarded.state
          ≡ (edge request supply w).forwarded.state)
        × ((serve answer internal received supply' v).supply ≡ supply')
        × ((serve answer internal received supply' v).warning ≡ none)
        × (get "x-request-id" (serve answer internal received supply' v).response.headers
            ≡ get "x-request-id" (edge request supply w).response.headers)
        × ((edge request supply w).forwarded.state.trace_id ≡ some (supply 0)
            ⊎ ((edge request supply w).forwarded.state.trace_id ≡ some (supply 1)))
  unfolding serve create_bff_app dispatch
  hops_join request received supply supply' w v user_id is_internal tokens delivered =
      let (request_id, trace_id, stamped, good_id, good_trace, _, _) =
        dispatch_stamps false (run bff_router true) request supply w tokens in
      let (has_id, has_trace) =
        received_ids request received supply w user_id request_id trace_id stamped good_id
          good_trace delivered in
      let (joined, undrawn, silent) =
        dispatch_continues internal.trust_inbound_trace
          (answer internal.router internal.error_handlers) received supply' v request_id trace_id
          (internal_trusts is_internal) good_id good_trace has_id has_trace in
      (
        joined ∙ sym stamped,
        undrawn,
        silent,
        response_request_id internal.trust_inbound_trace
              (answer internal.router internal.error_handlers) received supply' v
            ∙ ap (λ s. s.request_id) (joined ∙ sym stamped)
            ∙ sym (response_request_id false (run bff_router true) request supply w),
        minted (sanitize_draws (get "x-request-id" request.headers) supply),
      )
    where
      minted : {a b c : String} → (a ≡ b) ⊎ (a ≡ c) → (some a ≡ some b) ⊎ (some a ≡ some c)
      minted (inl e) = inl (ap some e)
      minted (inr e) = inr (ap some e)
