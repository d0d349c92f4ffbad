-- ===== src/Core/Client/Final.antt =====
-- packages/core/src/novon/core/http/base_client.py: a request whose first attempt is final.
use platform_backend.Prelude.{String, ◌≡◌, ap, ◌∙◌, inl, inr, false, Option, Bool-cases, string_eq}
use platform_backend.Dict.{Dict, merge}
use platform_backend.Core.Typehints.{Annotation}
use platform_backend.Core.Client.{Outcome, Returned, Result, ok, raised}
use platform_backend.Core.Client.Request.{
  Request, Network, Tenacity, ServiceClient, handle_outcome, request_once, attempt, is_transient,
  request_with_retry, should_retry, request,
}
use platform_backend.Core.Client.Retry.{fails_transiently}

module _ {W J M : Type 0} (network : Network W J) (validate : Annotation → J → Option M)
    (tenacity : Tenacity W (Returned J M)) (c : ServiceClient) where
  retry_of_final :
      (req : Request J) (model : Option Annotation) (w : W) (result : Result (Returned J M))
      (w' : W)
      → request_once network validate tenacity c req model w ≡ (result, w')
      → fails_transiently result ≡ false
      → request_with_retry network validate tenacity c req model w ≡ (result, w')
  unfolding request_with_retry attempt
  retry_of_final req model w (ok a) w' once final =
      tenacity.returns _ _ _ is_transient (attempt network validate tenacity c req model) 1 w a
        (ap (λ p. p.0) once)
      ∙ once
  retry_of_final req model w (raised e) w' once final =
      tenacity.raises _ _ _ is_transient (attempt network validate tenacity c req model) 1 w e
        (ap (λ p. p.0) once) (inl final)
      ∙ once

  -- A request whose outcome is not to be retried is sent once, by any method, and gives it.
  pub request_of_final :
      (method path : String) (ctx_headers : Dict String String) (model : Option Annotation)
      (json : Option J) (params : Option (Dict String J)) (headers : Dict String String) (w : W)
      (outcome : Outcome J) (w' : W)
      → network.send
          (record {
            method = method;
            path = path;
            headers = merge ctx_headers headers;
            json = json;
            params = params;
          })
          w
        ≡ (outcome, w')
      → fails_transiently (handle_outcome validate c.service_name model outcome) ≡ false
      → request network validate tenacity c method path ctx_headers model json params headers w
        ≡ (handle_outcome validate c.service_name model outcome, w')
  unfolding request request_once
  request_of_final method path ctx_headers model json params headers w outcome w' sent final =
      let once =
        ap (λ p. let (o, v) = p in (handle_outcome validate c.service_name model o, v)) sent in
      elim (Bool-cases (should_retry network validate tenacity c method)) [
        | inl again ↦ rw again (
            retry_of_final _ model w (handle_outcome validate c.service_name model outcome) w' once
              final)
        | inr never ↦ rw never once
      ]
