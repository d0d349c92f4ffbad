-- ===== src/Bff.antt =====
-- apps/bff/src/novon/bff, api/routes.py and dependencies.py: the routes of the BFF over the two service
-- interfaces, and what its caller is answered. `M` is what the clients parse bodies into.
pub mod Outcomes
pub mod Replies
pub mod Users
pub mod Flows
pub mod Lifespan
pub mod Recovery
pub mod Latency
use platform_backend.Prelude.{ℕ, String, Option, none, some, List, [], ◌∷◌, string_eq}
use platform_backend.Dict.{Dict}
use platform_backend.Core.Context.{HttpRequest, Supply, RequestContext, from_request}
use platform_backend.Core.Errors.Handlers.{JsonResponse, service_call_error_handler}
use platform_backend.Core.Client.{
  Returned, Raised, service_error, unreadable, stop_iteration, escaped, Result, ok, raised,
}
use platform_backend.Core.Feign.Call.{CallError, Called, done, refused}
use platform_backend.UcApi.Protocol.{UcApi}
use platform_backend.FlowApi.{FlowCreate}
use platform_backend.FlowApi.Protocol.{FlowApi}
use platform_backend.Auth.{get_current_user}

-- `get_request_context`, with the user that the auth dependency gives.
unfoldable pub get_request_context : HttpRequest → Supply → RequestContext × Supply
unfolding from_request get_current_user
get_request_context request supply = from_request request (some get_current_user) supply

unfoldable pub healthz : Dict String String
healthz = ("status", "ok") ∷ []

unfoldable pub me : Dict String String
unfolding get_current_user
me = ("user", get_current_user) ∷ []

-- The aggregate of a flow and its owner, who is None throughout.
pub record FlowWithOwner (A : Type 0) : Type 0 where
  pub flow : A
  pub owner : Option A

abbrev pub map_called : {A B : Type 0} → (A → B) → Called A → Called B
map_called f (done (ok a)) = done (ok (f a))
map_called f (done (raised e)) = done (raised e)
map_called f (refused e) = refused e

module _ {W A : Type 0} (flow_client : FlowApi W (Called A)) (uc_client : UcApi W (Called A)) where
  unfoldable pub list_flows : RequestContext → W → Called A × W
  list_flows ctx w = flow_client.list_flows (some ctx) w

  unfoldable pub get_flow : String → RequestContext → W → Called A × W
  get_flow flow_id ctx w = flow_client.get_flow flow_id (some ctx) w

  unfoldable pub create_flow : FlowCreate → RequestContext → W → Called A × W
  create_flow payload ctx w = flow_client.create_flow payload (some ctx) w

  unfoldable pub get_user : String → RequestContext → W → Called A × W
  get_user user_id ctx w = uc_client.get_user user_id (some ctx) w

  unfoldable pub get_user_by_username : String → RequestContext → W → Called A × W
  get_user_by_username username ctx w = uc_client.get_user_by_username username (some ctx) w

  unfoldable pub get_flow_with_owner : String → RequestContext → W → Called (FlowWithOwner A) × W
  get_flow_with_owner flow_id ctx w =
      let (flow, w') = flow_client.get_flow flow_id (some ctx) w in
      (map_called (λ a. record { flow = a; owner = none }) flow, w')

-- The routes whose result comes from a service, and the status of their decorators; FastAPI's default is
-- 200.
pub data Endpoint : Type 0 where
  flows_listed flow_read flow_created user_read username_read flow_with_owner_read : Endpoint

abbrev pub status_code : Endpoint → ℕ
status_code flow_created = 201
status_code _ = 200

-- What the caller of the BFF gets: the result under the route's status, the answer of the handler of
-- service errors, or the answer of FastAPI to any other exception.
pub data Answer (A : Type 0) : Type 0 where
  success : (status : ℕ) → A → Answer A
  failure : JsonResponse → Answer A
  server_error : Answer A

unfoldable pub answer : {A : Type 0} → Endpoint → Called A → Answer A
unfolding service_call_error_handler
answer endpoint (done (ok a)) = success (status_code endpoint) a
answer endpoint (done (raised (service_error e))) = failure (service_call_error_handler e).0
answer endpoint (done (raised unreadable)) = server_error
answer endpoint (done (raised stop_iteration)) = server_error
answer endpoint (done (raised (escaped text))) = server_error
answer endpoint (refused e) = server_error

abbrev pub status_of : {A : Type 0} → Answer A → ℕ
status_of (success status a) = status
status_of (failure response) = response.status
status_of server_error = 500
