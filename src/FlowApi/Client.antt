-- ===== src/FlowApi/Client.antt =====
-- packages/flow-api/src/novon/flow_api/client.py: the HTTP client of the Flow service.
-- pydantic is an argument: `payloads` gives the models as arguments of a call, `str_value` a text.
pub mod Laws
use platform_backend.Prelude.{
  ℕ, String, Bool, true, false, Option, none, some, List, [], ◌∷◌, contains, string_eq, ◌==◌,
}
use platform_backend.Dict.{Dict}
use platform_backend.Core.ModelUtils.{Value}
use platform_backend.Core.Typehints.{Annotation, none_type, class_type, list_type, union}
use platform_backend.Core.Context.{RequestContext}
use platform_backend.Core.Client.{Returned}
use platform_backend.Core.Client.Init.{Options, Built, init}
use platform_backend.Core.Client.Request.{Network, Tenacity, ServiceClient}
use platform_backend.Core.Feign.Call.{Argument, Called, Endpoint, call_declared}
use platform_backend.Core.Feign.Verbs.{get, post, patch, delete}
use platform_backend.UcApi.{str_type, or_none}
use platform_backend.FlowApi.{FlowCreate}
use platform_backend.FlowApi.Protocol.{FlowApi}

-- `isinstance(hint, type) and issubclass(hint, BaseModel)`, of the classes that the hints name.
abbrev pub is_base_model : Annotation → Bool
is_base_model none_type = false
is_base_model (class_type c) = contains c ("FlowResponse" ∷ "FlowCreate" ∷ "FlowUpdate" ∷ [])
is_base_model (list_type a) = false
is_base_model (union args) = false

abbrev pub flow_type : Annotation
flow_type = class_type "FlowResponse"

abbrev ctx_hint : Annotation
ctx_hint = or_none (class_type "RequestContext")

abbrev pub get_flow_endpoint : Endpoint
get_flow_endpoint =
    get "/flows/{flow_id}" ("self" ∷ "flow_id" ∷ "ctx" ∷ [])
      (("flow_id", str_type) ∷ ("ctx", ctx_hint) ∷ ("return", flow_type) ∷ [])

abbrev pub list_flows_endpoint : Endpoint
list_flows_endpoint =
    get "/flows" ("self" ∷ "ctx" ∷ []) (("ctx", ctx_hint) ∷ ("return", list_type flow_type) ∷ [])

abbrev pub create_flow_endpoint : Endpoint
create_flow_endpoint =
    post "/flows" ("self" ∷ "payload" ∷ "ctx" ∷ [])
      (("payload", class_type "FlowCreate") ∷ ("ctx", ctx_hint) ∷ ("return", flow_type) ∷ [])

abbrev pub update_flow_endpoint : Endpoint
update_flow_endpoint = patch "/flows/{flow_id}" ("self" ∷ "flow_id" ∷ "payload" ∷ "ctx" ∷ []) (
    ("flow_id", str_type)
    ∷ ("payload", class_type "FlowUpdate")
    ∷ ("ctx", ctx_hint)
    ∷ ("return", flow_type)
    ∷ [])

abbrev pub delete_flow_endpoint : Endpoint
delete_flow_endpoint =
    delete "/flows/{flow_id}" ("self" ∷ "flow_id" ∷ "ctx" ∷ [])
      (("flow_id", str_type) ∷ ("ctx", ctx_hint) ∷ ("return", none_type) ∷ [])

pub record Payloads (J : Type 0) : Type 0 where
  pub of_text : String → J
  pub of_create : FlowCreate → Argument J
  pub of_update : Dict String Value → Argument J

abbrev pub text_argument : {J : Type 0} → Payloads J → String → Argument J
text_argument payloads s = record {
  is_none = false;
  text = s;
  value = payloads.of_text s;
  dump = λ partial. payloads.of_text s;
}

abbrev pub flow_service_client : (max_retries retry_min_delay retry_max_delay : ℕ) → ServiceClient
flow_service_client max_retries retry_min_delay retry_max_delay = record {
  service_name = "flow";
  max_retries = max_retries;
  retry_min_delay = retry_min_delay;
  retry_max_delay = retry_max_delay;
}

-- `FlowServiceClient(base_url, **kwargs)`
abbrev pub init_flow : {T : Type 0} → String → Options T → Built T
init_flow base_url options = init base_url "flow" options

module _ {W J M : Type 0} (network : Network W J) (validate : Annotation → J → Option M)
    (tenacity : Tenacity W (Returned J M)) (c : ServiceClient) (payloads : Payloads J) where
  abbrev pub call :
      Endpoint → Option RequestContext → Dict String (Argument J) → W → Called (Returned J M) × W
  call = call_declared network validate tenacity c is_base_model

  -- `FlowServiceClient`
  unfoldable pub service_client : FlowApi W (Called (Returned J M))
  unfolding call_declared
  service_client = record {
    get_flow = λ flow_id ctx.
        call get_flow_endpoint ctx (("flow_id", text_argument payloads flow_id) ∷ []);
    list_flows = λ ctx. call list_flows_endpoint ctx [];
    create_flow =
        λ payload ctx. call create_flow_endpoint ctx (("payload", payloads.of_create payload) ∷ []);
    update_flow = λ flow_id payload ctx. call update_flow_endpoint ctx (
        ("flow_id", text_argument payloads flow_id) ∷ ("payload", payloads.of_update payload) ∷ []);
    delete_flow = λ flow_id ctx.
        call delete_flow_endpoint ctx (("flow_id", text_argument payloads flow_id) ∷ []);
  }
