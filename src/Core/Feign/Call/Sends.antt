-- ===== src/Core/Feign/Call/Sends.antt =====
-- packages/core/src/novon/core/http/feign.py: what a call of an accepted endpoint sends.
use platform_backend.Prelude.{
  String, Bool, true, false, Option, none, some, List, [], ◌==◌, string_eq, arith, contains,
  is_distinct, all, ◌≡◌, sym, ap, ◌∙◌, beq_self, ne_of_beq, Option-cases, inl, inr,
}
use platform_backend.Dict.{Dict, get, pop, is_some}
use platform_backend.Dict.Laws.{get-pop_ne}
use platform_backend.Core.Typehints.{Annotation}
use platform_backend.Core.Context.{RequestContext}
use platform_backend.Core.Client.{Returned}
use platform_backend.Core.Client.Request.{Network, Tenacity, ServiceClient, request}
use platform_backend.Core.Feign.{EndpointSpec, built, build_spec, take_path, wire_params, is_body}
use platform_backend.Core.Feign.Spec.{IsSound, build_spec-IsSound}
use platform_backend.Core.Feign.PathArguments.{is_given}
use platform_backend.Core.Feign.Template.{
  Segment, print, names, fill, IsTemplate, format_map-print, find_all-print,
}
use platform_backend.Core.Feign.Format.{format_map}
use platform_backend.Core.Feign.Call.{
  Argument, is_none_argument, quoted, body_of, non_empty, with_body, body_entry, with_path,
  with_taken, take_query, send_prepared, prepared, prepare, return_contract, context_headers,
  honoured, done, call_endpoint,
}
use platform_backend.Core.Feign.Call.Arguments.{
  path_value, query_of, All-of_contains, Takes, take_path-Takes, take_query-query_of,
}

-- The segment that an argument gives to the path.
abbrev pub path_part : {J : Type 0} → Dict String (Argument J) → String → String
path_part arguments name = path_value quoted (get name arguments)

abbrev body_given : {J : Type 0} → Bool → Option (Argument J) → Option J
body_given partial none = none
body_given partial (some body) = body_of partial body

-- The body, if one is declared.
abbrev pub body_sent : {J : Type 0} → Option String → Bool → Dict String (Argument J) → Option J
body_sent none partial arguments = none
body_sent (some name) partial arguments = body_given partial (get name arguments)

-- What is left after the path serves the body and the query as all arguments would.
record Agrees {J : Type 0} (spec : EndpointSpec) (body : Option String)
    (left arguments : Dict String (Argument J)) : Type 0 where
  query_names : is_distinct spec.query_params ≡ true
  query_left :
      (name : String)
      → contains name spec.query_params ≡ true
      → (is_body name body ≡ false) × (get name left ≡ get name arguments)
  body_left :
      (name : String)
      → is_body name body ≡ true
      → (get name left ≡ get name arguments) × (is_some (get name arguments) ≡ true)

with_body-sends :
    {J : Type 0} (spec : EndpointSpec) (path : String) (partial : Bool) (body : Option String)
    (left arguments : Dict String (Argument J))
    → spec.partial_update ≡ partial
    → Agrees spec body left arguments
    → with_body spec path left (body_entry body left)
      ≡ prepared path
          (body_sent body partial arguments)
          (non_empty (query_of spec.query_params arguments))
with_body-sends spec path partial none left arguments same h =
    ap (λ q. prepared path none (non_empty q))
      (take_query-query_of spec.query_params left arguments h.query_names
        (λ n given. (h.query_left n given).1))
with_body-sends spec path partial (some name) left arguments same h =
    let (here, bound) = h.body_left name (beq_self name) in
    elim (Option-cases (get name arguments)) [
      | inl missing ↦ cc (rw missing at bound)
      | inr (body, found) ↦
          ap (λ o. with_body spec path left (some (name, o))) (here ∙ found)
          ∙ ap
              (λ b.
                prepared path (body_of b body)
                  (non_empty (take_query spec.query_params (pop name left))))
              same
          ∙ ap (λ q. prepared path (body_of partial body) (non_empty q))
              (take_query-query_of spec.query_params (pop name left) arguments h.query_names
                (λ n given.
                  let (apart, agree) = h.query_left n given in
                  get-pop_ne left (λ p. ne_of_beq n name apart (sym p)) ∙ agree))
          ∙ sym (
              ap
                (λ o.
                  prepared path (body_given partial o)
                    (non_empty (query_of spec.query_params arguments)))
                found)
    ]

module _ {J : Type 0} (is_model : Annotation → Bool) (method : String) (segments : List Segment)
    (parameters : List String) (hints : Dict String Annotation) (spec : EndpointSpec)
    (template : IsTemplate segments)
    (accepted : build_spec is_model method (print segments) parameters (some hints) ≡ built spec)
    (arguments : Dict String (Argument J)) where
  sound : IsSound is_model method (print segments) parameters hints spec
  sound = build_spec-IsSound is_model method (print segments) parameters hints spec accepted

  pub path_names : spec.path_params ≡ names segments
  path_names = sound.own_placeholders ∙ find_all-print segments template

  query_facts :
      (name : String)
      → contains name spec.query_params ≡ true
      → (contains name (names segments) ≡ false) × (is_body name spec.body_param ≡ false)
  query_facts name given =
      let rest = sound.query_rest name in
      let here : contains name spec.path_params ≡ contains name (names segments) =
        ap (contains name) path_names in
      ground arith

  agrees :
      (t : Takes is_none_argument quoted (names segments) arguments [])
      → is_distinct (wire_params parameters) ≡ true
      → ((name : String)
          → is_body name spec.body_param ≡ true
          → is_some (get name arguments) ≡ true)
      → Agrees spec spec.body_param t.left arguments
  agrees t once bound = record {
    query_names = sound.query_distinct once;
    query_left = λ name given.
        let (apart, other) = query_facts name given in (other, t.other_argument name apart);
    body_left = λ name is_it.
        let (_, apart, _) = sound.body_typed name is_it in
        (t.other_argument name (sym (ap (contains name) path_names) ∙ apart), bound name is_it);
  }

  -- After the path parameters are taken, the path is the filled template.
  pub prepare-fill :
      (t : Takes is_none_argument quoted (names segments) arguments [])
      → prepare spec arguments
        ≡ with_body spec
            (fill (path_part arguments) segments)
            t.left
            (body_entry spec.body_param t.left)
  unfolding prepare
  prepare-fill t =
      ap (λ ns. with_taken spec (take_path is_none_argument quoted ns arguments [])) path_names
      ∙ ap (with_taken spec) t.takes
      ∙ ap (λ p. with_path spec t.left (format_map t.vars p)) sound.own_template
      ∙ ap (with_path spec t.left) (
          format_map-print t.vars (path_part arguments) segments template
            (All-of_contains _ (names segments) t.value_of))

  prepare-sends :
      is_distinct (wire_params parameters) ≡ true
      → is_distinct (names segments) ≡ true
      → all (λ n. is_given is_none_argument quoted (get n arguments)) (names segments) ≡ true
      → ((name : String)
          → is_body name spec.body_param ≡ true
          → is_some (get name arguments) ≡ true)
      → prepare spec arguments
        ≡ prepared
            (fill (path_part arguments) segments)
            (body_sent spec.body_param (method == "PATCH") arguments)
            (non_empty (query_of spec.query_params arguments))
  prepare-sends once apart given bound =
      let t = take_path-Takes is_none_argument quoted (names segments) arguments [] apart given in
      prepare-fill t
      ∙ with_body-sends spec (fill (path_part arguments) segments) (method == "PATCH")
          spec.body_param t.left arguments sound.partial (agrees t once bound)

  -- A call of an accepted endpoint whose template has plain literals and words as placeholders and
  -- whose parameters have different names, with an argument for each placeholder, none of them None
  -- or twice in the path, and one for the body, sends exactly one `request`: of the declared
  -- method, to the template filled with the quoted texts of the arguments, with the context's
  -- headers, the body argument's dump if a body is declared (only the set fields for a PATCH), and
  -- as its query the other arguments that are not None. Its result is that of the request, parsed
  -- as the endpoint's return annotation, or None for an endpoint that returns None.
  pub call_endpoint-sends :
      {W M : Type 0} (network : Network W J) (validate : Annotation → J → Option M)
      (tenacity : Tenacity W (Returned J M)) (c : ServiceClient) (declared : Option Annotation)
      (ctx : Option RequestContext) (w : W)
      → is_distinct (wire_params parameters) ≡ true
      → is_distinct (names segments) ≡ true
      → all (λ n. is_given is_none_argument quoted (get n arguments)) (names segments) ≡ true
      → ((name : String)
          → is_body name spec.body_param ≡ true
          → is_some (get name arguments) ≡ true)
      → call_endpoint network validate tenacity c spec declared ctx arguments w ≡ (
          let (result, w') =
            request network validate tenacity c method
              (fill (path_part arguments) segments)
              (context_headers ctx)
              (return_contract declared).1
              (body_sent spec.body_param (method == "PATCH") arguments)
              (non_empty (query_of spec.query_params arguments))
              []
              w in
          (done (honoured (return_contract declared).0 result), w'))
  unfolding call_endpoint
  call_endpoint-sends network validate tenacity c declared ctx w once apart given bound =
      ap (λ p. send_prepared network validate tenacity c spec (return_contract declared) ctx p w)
        (prepare-sends once apart given bound)
      ∙ ap
          (λ m.
            let (result, w') =
              request network validate tenacity c m (fill (path_part arguments) segments)
                (context_headers ctx) (return_contract declared).1
                (body_sent spec.body_param (method == "PATCH") arguments)
                (non_empty (query_of spec.query_params arguments)) [] w in
            (done (honoured (return_contract declared).0 result), w'))
          sound.own_method
