-- ===== src/Core/Feign/Call/Declared.antt =====
-- packages/core/src/novon/core/http/feign.py: what a call of a declared endpoint sends.
use platform_backend.Prelude.{
  String, Bool, true, Option, some, List, [], ◌==◌, string_eq, eq_iff, is_distinct, all, ◌≡◌, refl,
  sym, ap, ◌∙◌,
}
use platform_backend.Dict.{Dict, get, is_some}
use platform_backend.Core.Typehints.{
  Annotation, none_type, class_type, list_type, union, is_none_type,
}
use platform_backend.Core.Context.{RequestContext}
use platform_backend.Core.Client.{Returned}
use platform_backend.Core.Client.Request.{Network, Tenacity, ServiceClient, request}
use platform_backend.Core.Feign.{EndpointSpec, built, build_spec, wire_params, is_body, no_content}
use platform_backend.Core.Feign.Spec.{build_spec-IsSound}
use platform_backend.Core.Feign.PathArguments.{is_given}
use platform_backend.Core.Feign.Template.{Segment, print, names, fill, IsTemplate}
use platform_backend.Core.Feign.Call.{
  Argument, is_none_argument, quoted, non_empty, return_contract, context_headers, honoured, Called,
  done, Endpoint, call_built, call_declared,
}
use platform_backend.Core.Feign.Call.Arguments.{query_of}
use platform_backend.Core.Feign.Call.Sends.{path_part, body_sent, call_endpoint-sends}

-- What a call gives for one request: its result, or None for an endpoint that returns None.
module _ {J W M : Type 0} (network : Network W J) (validate : Annotation → J → Option M)
    (tenacity : Tenacity W (Returned J M)) (c : ServiceClient) where
  abbrev pub sent :
      Bool
      → String
      → String
      → Option Annotation
      → Option J
      → Option (Dict String J)
      → Option RequestContext
      → W
      → Called (Returned J M) × W
  sent expects_none method path response_model json params ctx w =
      let (result, w') =
        request network validate tenacity c method path (context_headers ctx) response_model json
          params [] w in
      (done (honoured expects_none result), w')

-- The same for a declared endpoint, from what its decorator makes of it.
module _ {J W M : Type 0} (network : Network W J) (validate : Annotation → J → Option M)
    (tenacity : Tenacity W (Returned J M)) (c : ServiceClient) (is_model : Annotation → Bool) where
  pub call_declared-sends :
      (endpoint : Endpoint) (segments : List Segment) (spec : EndpointSpec)
      (arguments : Dict String (Argument J)) (ctx : Option RequestContext) (w : W)
      → IsTemplate segments
      → endpoint.path ≡ print segments
      → build_spec is_model endpoint.method endpoint.path endpoint.parameters (some endpoint.hints)
        ≡ built spec
      → is_distinct (wire_params endpoint.parameters) ≡ true
      → is_distinct (names segments) ≡ true
      → all (λ n. is_given is_none_argument quoted (get n arguments)) (names segments) ≡ true
      → ((name : String)
          → is_body name spec.body_param ≡ true
          → is_some (get name arguments) ≡ true)
      → call_declared network validate tenacity c is_model endpoint ctx arguments w ≡ (
          let (expects_none, response_model) = return_contract (get "return" endpoint.hints) in
          sent network validate tenacity c expects_none endpoint.method
            (fill (path_part arguments) segments)
            response_model
            (body_sent spec.body_param (endpoint.method == "PATCH") arguments)
            (non_empty (query_of spec.query_params arguments))
            ctx
            w)
  unfolding call_declared
  call_declared-sends endpoint segments spec arguments ctx w template same accepted once apart given
        bound =
      ap (λ b. call_built network validate tenacity c is_model b endpoint ctx arguments w) accepted
      ∙ call_endpoint-sends is_model endpoint.method segments endpoint.parameters endpoint.hints
          spec template
          (sym (
              ap
                (λ p.
                  build_spec is_model endpoint.method p endpoint.parameters (some endpoint.hints))
                same)
            ∙ accepted)
          arguments network validate tenacity c (get "return" endpoint.hints) ctx w once apart given
          bound

-- The body of an endpoint that calls it `payload`.
pub payload_bound :
    {J : Type 0} (body : Argument J) (arguments : Dict String (Argument J)) (name : String)
    → get "payload" arguments ≡ some body
    → is_body name (some "payload") ≡ true
    → is_some (get name arguments) ≡ true
payload_bound body arguments name found h = rw ((eq_iff name "payload").0 h, found) refl

-- The contract by which a result is read off the annotations is that of the specification.
contract-no_content :
    (is_model : Annotation → Bool) (method path : String) (parameters : List String)
    (hints : Dict String Annotation) (spec : EndpointSpec)
    → build_spec is_model method path parameters (some hints) ≡ built spec
    → (return_contract (get "return" hints)).0 ≡ no_content spec
contract-no_content is_model method path parameters hints spec e =
    let sound = build_spec-IsSound is_model method path parameters hints spec e in
    rw sound.returns (by_type spec.response_type)
  where
    by_type : (t : Annotation) → (return_contract (some t)).0 ≡ is_none_type t
    by_type none_type = refl
    by_type (class_type c) = refl
    by_type (list_type t) = refl
    by_type (union ts) = refl
