-- ===== src/FlowApi/Client/Laws.antt =====
-- packages/flow-api/src/novon/flow_api/client.py: the request that each method of the client sends.
use text.Mathlib.TextLemmas.{append-nil}
use platform_backend.Prelude.{
  String, ◌&◌, Bool, true, false, Option, none, some, List, [], ◌∷◌, ◌≡◌, refl, ap, ◌∙◌, string_eq,
  arith,
}
use platform_backend.Dict.{Dict, get}
use platform_backend.Core.ModelUtils.{Value}
use platform_backend.Core.Typehints.{Annotation, list_type}
use platform_backend.Core.Context.{RequestContext}
use platform_backend.Core.Client.{Returned}
use platform_backend.Core.Client.Request.{Network, Tenacity, ServiceClient}
use platform_backend.Core.Feign.{build_spec, is_word_char}
use platform_backend.Core.Feign.Quote.{quote}
use platform_backend.Core.Feign.Format.{is_positional}
use platform_backend.Core.Feign.Template.{Segment, literal, placeholder, IsTemplate}
use platform_backend.Core.Feign.Call.{body_of, Called}
use platform_backend.Core.Feign.Call.Declared.{call_declared-sends, sent, payload_bound}
use platform_backend.FlowApi.{FlowCreate}
use platform_backend.FlowApi.Protocol.{FlowApi}
use platform_backend.FlowApi.Client.{
  is_base_model, flow_type, Payloads, text_argument, get_flow_endpoint, list_flows_endpoint,
  create_flow_endpoint, update_flow_endpoint, delete_flow_endpoint, service_client,
}

abbrev one_flow : List Segment
one_flow = literal "/flows/" ∷ placeholder "flow_id" ∷ []

one_flow-IsTemplate : IsTemplate one_flow
unfolding is_word_char is_positional
one_flow-IsTemplate = ground arith

module _ {W J M : Type 0} (network : Network W J) (validate : Annotation → J → Option M)
    (tenacity : Tenacity W (Returned J M)) (c : ServiceClient) (payloads : Payloads J) where
  abbrev pub sends :
      Bool
      → String
      → String
      → Option Annotation
      → Option J
      → Option (Dict String J)
      → Option RequestContext
      → W
      → Called (Returned J M) × W
  sends = sent network validate tenacity c

  -- Which request stands behind each method of a client.
  pub record Sends (client : FlowApi W (Called (Returned J M))) : Type 0 where
    pub get_flow_sends :
        (flow_id : String) (ctx : Option RequestContext) (w : W)
        → client.get_flow flow_id ctx w
          ≡ sends false "GET" ("/flows/" & quote flow_id) (some flow_type) none none ctx w
    pub list_flows_sends :
        (ctx : Option RequestContext) (w : W)
        → client.list_flows ctx w
          ≡ sends false "GET" "/flows" (some (list_type flow_type)) none none ctx w
    pub create_flow_sends :
        (payload : FlowCreate) (ctx : Option RequestContext) (w : W)
        → client.create_flow payload ctx w
          ≡ sends false "POST" "/flows"
              (some flow_type)
              (body_of false (payloads.of_create payload))
              none
              ctx
              w
    pub update_flow_sends :
        (flow_id : String) (payload : Dict String Value) (ctx : Option RequestContext) (w : W)
        → client.update_flow flow_id payload ctx w
          ≡ sends false "PATCH"
              ("/flows/" & quote flow_id)
              (some flow_type)
              (body_of true (payloads.of_update payload))
              none
              ctx
              w
    pub delete_flow_sends :
        (flow_id : String) (ctx : Option RequestContext) (w : W)
        → client.delete_flow flow_id ctx w
          ≡ sends true "DELETE" ("/flows/" & quote flow_id) none none none ctx w

  module _ (ctx : Option RequestContext) (w : W) where
    get_flow-sent :
        (flow_id : String)
        → (service_client network validate tenacity c payloads).get_flow flow_id ctx w
          ≡ sends false "GET" ("/flows/" & quote flow_id) (some flow_type) none none ctx w
    unfolding service_client build_spec get
    get_flow-sent flow_id =
        call_declared-sends network validate tenacity c is_base_model get_flow_endpoint one_flow _
          (("flow_id", text_argument payloads flow_id) ∷ []) ctx w one_flow-IsTemplate refl refl
          refl refl refl (λ name h. cc)
        ∙ ap (λ p. sends false "GET" ("/flows/" & p) (some flow_type) none none ctx w)
            (append-nil (quote flow_id))

    list_flows-sent :
        (service_client network validate tenacity c payloads).list_flows ctx w
        ≡ sends false "GET" "/flows" (some (list_type flow_type)) none none ctx w
    unfolding service_client build_spec get
    list_flows-sent =
        call_declared-sends network validate tenacity c is_base_model list_flows_endpoint
          (literal "/flows" ∷ []) _ ([]) ctx w (ground arith) refl refl refl refl refl
          (λ name h. cc)

    create_flow-sent :
        (payload : FlowCreate)
        → (service_client network validate tenacity c payloads).create_flow payload ctx w
          ≡ sends false "POST" "/flows"
              (some flow_type)
              (body_of false (payloads.of_create payload))
              none
              ctx
              w
    unfolding service_client build_spec get
    create_flow-sent payload =
        call_declared-sends network validate tenacity c is_base_model create_flow_endpoint
          (literal "/flows" ∷ []) _ (("payload", payloads.of_create payload) ∷ []) ctx w
          (ground arith) refl refl refl refl refl
          (λ name h.
            payload_bound (payloads.of_create payload)
              (("payload", payloads.of_create payload) ∷ []) name refl h)

    update_flow-sent :
        (flow_id : String) (payload : Dict String Value)
        → (service_client network validate tenacity c payloads).update_flow flow_id payload ctx w
          ≡ sends false "PATCH"
              ("/flows/" & quote flow_id)
              (some flow_type)
              (body_of true (payloads.of_update payload))
              none
              ctx
              w
    unfolding service_client build_spec get
    update_flow-sent flow_id payload =
        call_declared-sends network validate tenacity c is_base_model update_flow_endpoint one_flow
          _
          (("flow_id", text_argument payloads flow_id)
            ∷ ("payload", payloads.of_update payload)
            ∷ [])
          ctx w one_flow-IsTemplate refl refl refl refl refl
          (λ name h.
            payload_bound (payloads.of_update payload)
              (("flow_id", text_argument payloads flow_id)
                ∷ ("payload", payloads.of_update payload)
                ∷ [])
              name refl h)
        ∙ ap
            (λ p.
              sends false "PATCH" ("/flows/" & p) (some flow_type)
                (body_of true (payloads.of_update payload)) none ctx w)
            (append-nil (quote flow_id))

    delete_flow-sent :
        (flow_id : String)
        → (service_client network validate tenacity c payloads).delete_flow flow_id ctx w
          ≡ sends true "DELETE" ("/flows/" & quote flow_id) none none none ctx w
    unfolding service_client build_spec get
    delete_flow-sent flow_id =
        call_declared-sends network validate tenacity c is_base_model delete_flow_endpoint one_flow
          _ (("flow_id", text_argument payloads flow_id) ∷ []) ctx w one_flow-IsTemplate refl refl
          refl refl refl (λ name h. cc)
        ∙ ap (λ p. sends true "DELETE" ("/flows/" & p) none none none ctx w)
            (append-nil (quote flow_id))

  -- For every argument, context and state of the world, each method of the client sends the request
  -- that its route of the service answers, with its id quoted as one path segment, and gives its
  -- result; only an update leaves unset fields out of its body, and a delete gives None.
  pub flow_client-Sends : Sends (service_client network validate tenacity c payloads)
  flow_client-Sends = record {
    get_flow_sends = λ flow_id ctx w. get_flow-sent ctx w flow_id;
    list_flows_sends = λ ctx w. list_flows-sent ctx w;
    create_flow_sends = λ payload ctx w. create_flow-sent ctx w payload;
    update_flow_sends = λ flow_id payload ctx w. update_flow-sent ctx w flow_id payload;
    delete_flow_sends = λ flow_id ctx w. delete_flow-sent ctx w flow_id;
  }
