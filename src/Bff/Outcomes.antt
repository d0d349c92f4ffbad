-- ===== src/Bff/Outcomes.antt =====
-- What the BFF answers for the outcomes of the calls behind a route.
use platform_backend.Prelude.{
  ◌<◌, String, ◌≡◌, refl, sym, ap, ◌∙◌, arith, Bool, true, false, Option, [], Bool-cases, inl, inr,
  string_eq, ltb, contains, upper, and_right, if◌then◌else◌,
}
use platform_backend.Dict.{Dict, merge}
use platform_backend.Core.Typehints.{Annotation}
use platform_backend.Core.Context.{RequestContext}
use platform_backend.Core.Client.{
  idempotent_methods, Outcome, answered, broken, threw, Returned, Raised, Result, ok, raised,
}
use platform_backend.Core.Client.Request.{
  Request, Network, Tenacity, ServiceClient, handle_outcome, request_once, attempt, should_retry,
  request,
}
use platform_backend.Core.Client.Parsing.{
  IsResponseModel, gateway, IsMapped, handle_outcome-IsMapped,
}
use platform_backend.Core.Client.Retry.{request_with_retry-Ends}
use platform_backend.Core.Feign.Call.{done, context_headers, honoured}
use platform_backend.Core.Feign.Call.Declared.{sent}
use platform_backend.Bff.{Endpoint, answer, status_of}

done_inj : {A : Type 0} {a b : Result A} → done a ≡ done b → a ≡ b
done_inj h = cc

honoured_raised :
    {J M : Type 0} (expects_none : Bool) (result : Result (Returned J M)) (x : Raised)
    → honoured expects_none result ≡ raised x
    → result ≡ raised x
honoured_raised true (ok a) x h = cc
honoured_raised true (raised e) x h = h
honoured_raised false result x h = h

module _ {W J M : Type 0} (network : Network W J) (validate : Annotation → J → Option M)
    (tenacity : Tenacity W (Returned J M)) (c : ServiceClient) where
  abbrev pub asked :
      String → String → Option J → Option (Dict String J) → Option RequestContext → Request J
  asked method path json params ctx = record {
    method = method;
    path = path;
    headers = merge (context_headers ctx) [];
    json = json;
    params = params;
  }

  may_retry :
      (method : String) → should_retry network validate tenacity c method ≡ true → 0 < c.max_retries
  unfolding should_retry
  may_retry method h =
      let positive : ltb 0 c.max_retries ≡ true =
        and_right (contains (upper method) idempotent_methods) _ h in
      ground arith

  -- A result of a request is the reading of an outcome that the network gave to that request.
  pub request_result :
      (req : Request J) (model : Option Annotation) (w : W)
      → (v : W) × (request network validate tenacity c req.method req.path req.headers model
            req.json req.params [] w
          ≡ (
            handle_outcome validate c.service_name model (network.send req v).0,
            (network.send req v).1,
          ))
  unfolding request request_once attempt
  request_result req model w =
      elim (Bool-cases (should_retry network validate tenacity c req.method)) [
        | inl again ↦
            let (m, v, _, _, _, same, _) =
              request_with_retry-Ends network validate tenacity c req model w
                (may_retry req.method again) in
            ((if ltb 1 m then network.warn m c.max_retries req v else v), rw again same)
        | inr never ↦ (w, rw never refl)
      ]

  mapped_status :
      (endpoint : Endpoint) (outcome : Outcome J) (x : Raised)
      → IsMapped validate c.service_name outcome x
      → status_of (answer {A = Returned J M} endpoint (done (raised x))) ≡ gateway outcome
  unfolding answer
  mapped_status endpoint (answered r) x (e, is_error, mapped, _) = rw is_error mapped
  mapped_status endpoint (broken e) x (e', is_error, mapped, _) = rw is_error mapped
  mapped_status endpoint (threw text) x (same, _) = rw same refl

  -- If a call of a service under a return annotation that Python can build raises, after whatever
  -- retries, then the status that the caller of the BFF gets is the one that stands for an outcome
  -- that the network gave to that very request, the last one sent: 504 for a timeout, the service's
  -- own status from 400 to 499, 500 where httpx2 raised an exception that is no TransportError, as for
  -- a body that does not decompress, and 502 for all others, among them a body that is no JSON or does
  -- not fit the model.
  pub failed_call_status :
      (expects_none : Bool) (method path : String) (model : Option Annotation) (json : Option J)
      (params : Option (Dict String J)) (ctx : Option RequestContext) (w : W) (endpoint : Endpoint)
      (x : Raised)
      → IsResponseModel model
      → (sent network validate tenacity c expects_none method path model json params ctx w).0
        ≡ done (raised x)
      → (v : W) × (status_of (answer {A = Returned J M} endpoint (done (raised x)))
          ≡ gateway (network.send (asked method path json params ctx) v).0)
        × ((sent network validate tenacity c expects_none method path model json params ctx w).1
            ≡ (network.send (asked method path json params ctx) v).1)
  unfolding answer merge
  failed_call_status expects_none method path model json params ctx w endpoint x valid h =
      let (v, read) = request_result (asked method path json params ctx) model w in
      let failed = honoured_raised expects_none _ x (done_inj h) in
      let mapped =
        handle_outcome-IsMapped validate c.service_name model
          (network.send (asked method path json params ctx) v).0 x valid
          (sym (ap (λ p. p.0) read) ∙ failed) in
      (
        v,
        mapped_status endpoint (network.send (asked method path json params ctx) v).0 x mapped,
        ap (λ p. p.1) read,
      )
