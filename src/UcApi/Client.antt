-- ===== src/UcApi/Client.antt =====
-- packages/uc-api/src/novon/uc_api/client.py: the HTTP client of the UC service.
-- pydantic is an argument: `payloads` gives the models as arguments of a call, `str_value` a text.
pub mod Laws
use platform_backend.Prelude.{
  ℕ, String, Bool, true, false, Option, none, some, List, [], ◌∷◌, contains, string_eq, ◌==◌,
}
use platform_backend.Dict.{Dict}
use platform_backend.Core.ModelUtils.{Value}
use platform_backend.Core.Typehints.{Annotation, none_type, class_type, list_type, union}
use platform_backend.Core.Context.{RequestContext}
use platform_backend.Core.Client.{Returned}
use platform_backend.Core.Client.Init.{Options, Built, init}
use platform_backend.Core.Client.Request.{Network, Tenacity, ServiceClient}
use platform_backend.Core.Feign.Call.{Argument, Called, Endpoint, call_declared}
use platform_backend.Core.Feign.Verbs.{get, post, patch, delete}
use platform_backend.UcApi.{UserCreate, str_type, or_none}
use platform_backend.UcApi.Protocol.{UcApi}

-- `isinstance(hint, type) and issubclass(hint, BaseModel)`, of the classes that the hints name.
abbrev pub is_base_model : Annotation → Bool
is_base_model none_type = false
is_base_model (class_type c) = contains c ("UserResponse" ∷ "UserCreate" ∷ "UserUpdate" ∷ [])
is_base_model (list_type a) = false
is_base_model (union args) = false

abbrev pub user_type : Annotation
user_type = class_type "UserResponse"

abbrev ctx_hint : Annotation
ctx_hint = or_none (class_type "RequestContext")

abbrev pub get_user_endpoint : Endpoint
get_user_endpoint =
    get "/users/{user_id}" ("self" ∷ "user_id" ∷ "ctx" ∷ [])
      (("user_id", str_type) ∷ ("ctx", ctx_hint) ∷ ("return", user_type) ∷ [])

abbrev pub get_user_by_username_endpoint : Endpoint
get_user_by_username_endpoint =
    get "/users/by-username" ("self" ∷ "username" ∷ "ctx" ∷ [])
      (("username", str_type) ∷ ("ctx", ctx_hint) ∷ ("return", user_type) ∷ [])

abbrev pub list_users_endpoint : Endpoint
list_users_endpoint =
    get "/users" ("self" ∷ "ctx" ∷ []) (("ctx", ctx_hint) ∷ ("return", list_type user_type) ∷ [])

abbrev pub create_user_endpoint : Endpoint
create_user_endpoint =
    post "/users" ("self" ∷ "payload" ∷ "ctx" ∷ [])
      (("payload", class_type "UserCreate") ∷ ("ctx", ctx_hint) ∷ ("return", user_type) ∷ [])

abbrev pub update_user_endpoint : Endpoint
update_user_endpoint = patch "/users/{user_id}" ("self" ∷ "user_id" ∷ "payload" ∷ "ctx" ∷ []) (
    ("user_id", str_type)
    ∷ ("payload", class_type "UserUpdate")
    ∷ ("ctx", ctx_hint)
    ∷ ("return", user_type)
    ∷ [])

abbrev pub delete_user_endpoint : Endpoint
delete_user_endpoint =
    delete "/users/{user_id}" ("self" ∷ "user_id" ∷ "ctx" ∷ [])
      (("user_id", str_type) ∷ ("ctx", ctx_hint) ∷ ("return", none_type) ∷ [])

pub record Payloads (J : Type 0) : Type 0 where
  pub of_text : String → J
  pub of_create : UserCreate → Argument J
  pub of_update : Dict String Value → Argument J

abbrev pub text_argument : {J : Type 0} → Payloads J → String → Argument J
text_argument payloads s = record {
  is_none = false;
  text = s;
  value = payloads.of_text s;
  dump = λ partial. payloads.of_text s;
}

abbrev pub uc_service_client : (max_retries retry_min_delay retry_max_delay : ℕ) → ServiceClient
uc_service_client max_retries retry_min_delay retry_max_delay = record {
  service_name = "uc";
  max_retries = max_retries;
  retry_min_delay = retry_min_delay;
  retry_max_delay = retry_max_delay;
}

-- `UcServiceClient(base_url, **kwargs)`
abbrev pub init_uc : {T : Type 0} → String → Options T → Built T
init_uc base_url options = init base_url "uc" options

module _ {W J M : Type 0} (network : Network W J) (validate : Annotation → J → Option M)
    (tenacity : Tenacity W (Returned J M)) (c : ServiceClient) (payloads : Payloads J) where
  abbrev pub call :
      Endpoint → Option RequestContext → Dict String (Argument J) → W → Called (Returned J M) × W
  call = call_declared network validate tenacity c is_base_model

  -- `UcServiceClient`
  unfoldable pub service_client : UcApi W (Called (Returned J M))
  unfolding call_declared
  service_client = record {
    get_user = λ user_id ctx.
        call get_user_endpoint ctx (("user_id", text_argument payloads user_id) ∷ []);
    get_user_by_username = λ username ctx.
        call get_user_by_username_endpoint ctx (("username", text_argument payloads username) ∷ []);
    list_users = λ ctx. call list_users_endpoint ctx [];
    create_user =
        λ payload ctx. call create_user_endpoint ctx (("payload", payloads.of_create payload) ∷ []);
    update_user = λ user_id payload ctx. call update_user_endpoint ctx (
        ("user_id", text_argument payloads user_id) ∷ ("payload", payloads.of_update payload) ∷ []);
    delete_user = λ user_id ctx.
        call delete_user_endpoint ctx (("user_id", text_argument payloads user_id) ∷ []);
  }
