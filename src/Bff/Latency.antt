-- ===== src/Bff/Latency.antt =====
-- How long the routes of the BFF can take, with the clients that `lifespan` makes.
use platform_backend.Prelude.{
  ℕ, ◌+◌, ◌*◌, ◌≤◌, String, ◌≡◌, refl, sym, ap, arith, Option, none, some, inl, [],
}
use platform_backend.Dict.{Dict}
use platform_backend.Core.Typehints.{Annotation}
use platform_backend.Core.Context.{RequestContext}
use platform_backend.Core.Client.{Returned}
use platform_backend.Core.Client.Request.{Request, Network, Tenacity, ServiceClient, request}
use platform_backend.Core.Client.Retry.{request_sends_once}
use platform_backend.Core.Client.Latency.{request_takes}
use platform_backend.Core.Client.Init.{BaseServiceClient, built, init}
use platform_backend.Core.Feign.Call.{context_headers}
use platform_backend.UcApi.Client.{init_uc}
use platform_backend.UcApi.Client as Uc
use platform_backend.UcApi.Client.Laws as UcLaws
use platform_backend.FlowApi.{FlowCreate}
use platform_backend.FlowApi.Client.{init_flow}
use platform_backend.FlowApi.Client as Flow
use platform_backend.FlowApi.Client.Laws as FlowLaws
use platform_backend.Bff.{
  list_flows, get_flow, create_flow, get_user, get_user_by_username, get_flow_with_owner,
}
use platform_backend.Bff.Lifespan.{Settings, with_timeout_and_pool}

abbrev default_client : String → ServiceClient
default_client service_name = record {
  service_name = service_name;
  max_retries = 3;
  retry_min_delay = 100;
  retry_max_delay = 5000;
}

built_inj : {T : Type 0} {a b : BaseServiceClient T} → built a ≡ built b → a ≡ b
built_inj h = cc

flow_settings :
    {T : Type 0} (settings : Settings) (client : BaseServiceClient T)
    → init_flow settings.flow_api_base_url
        (with_timeout_and_pool settings.flow_timeout settings.connection_pool)
      ≡ built client
    → client.settings ≡ default_client "flow"
unfolding init
flow_settings settings client e = sym (ap (λ k. k.settings) (built_inj e))

uc_settings :
    {T : Type 0} (settings : Settings) (client : BaseServiceClient T)
    → init_uc settings.uc_api_base_url
        (with_timeout_and_pool settings.uc_timeout settings.connection_pool)
      ≡ built client
    → client.settings ≡ default_client "uc"
unfolding init
uc_settings settings client e = sym (ap (λ k. k.settings) (built_inj e))

module _ {W J M : Type 0} (network : Network W J) (validate : Annotation → J → Option M)
    (tenacity : Tenacity W (Returned J M)) (clock : W → ℕ) (longest : ℕ)
    (sends : (req : Request J) (w : W) → clock (network.send req w).1 ≤ clock w + longest)
    (warns : (n of_n : ℕ) (req : Request J) (w : W) → clock (network.warn n of_n req w) ≤ clock w)
    (sleeps : (lo hi n : ℕ) (w : W)
      → lo ≤ hi
      → clock (tenacity.sleep lo hi n w) ≤ clock w + hi) where
  read_takes :
      (service_name path : String) (model : Option Annotation) (params : Option (Dict String J))
      (ctx : RequestContext) (w : W)
      → clock
          (request network validate tenacity
            (default_client service_name)
            "GET"
            path
            (context_headers (some ctx))
            model
            none
            params
            []
            w).1
        ≤ clock w + (3 * longest + 10000)
  read_takes service_name path model params ctx w =
      let bound =
        request_takes network validate tenacity (default_client service_name) clock longest
          (omega arith) sends warns sleeps "GET" path (context_headers (some ctx)) model none params
          [] w in
      omega arith

  creation_takes :
      (path : String) (model : Option Annotation) (json : Option J) (ctx : RequestContext) (w : W)
      → clock
          (request network validate tenacity
            (default_client "flow")
            "POST"
            path
            (context_headers (some ctx))
            model
            json
            none
            []
            w).1
        ≤ clock w + longest
  creation_takes path model json ctx w =
      rw
        (request_sends_once network validate tenacity (default_client "flow") "POST" path
          (context_headers (some ctx)) model json none [] w (inl refl))
        (sends _ w)

  module _ (flow_payloads : Flow.Payloads J) (uc_payloads : Uc.Payloads J) (ctx : RequestContext)
      (w : W) where
    -- The routes over clients with these settings, and their times.
    abbrev pub Takes : (flow uc : ServiceClient) → Type 0
    Takes flow uc =
        let f = Flow.service_client network validate tenacity flow flow_payloads in
        let u = Uc.service_client network validate tenacity uc uc_payloads in
        ((payload : FlowCreate) → clock (create_flow f u payload ctx w).1 ≤ clock w + longest)
        × ((flow_id : String)
            → clock (get_flow f u flow_id ctx w).1 ≤ clock w + (3 * longest + 10000))
        × ((flow_id : String)
            → clock (get_flow_with_owner f u flow_id ctx w).1 ≤ clock w + (3 * longest + 10000))
        × (clock (list_flows f u ctx w).1 ≤ clock w + (3 * longest + 10000))
        × ((user_id : String)
            → clock (get_user f u user_id ctx w).1 ≤ clock w + (3 * longest + 10000))
        × ((username : String)
            → clock (get_user_by_username f u username ctx w).1 ≤ clock w + (3 * longest + 10000))

    default-Takes : Takes (default_client "flow") (default_client "uc")
    unfolding create_flow get_flow get_flow_with_owner list_flows get_user get_user_by_username
    default-Takes =
        let flow =
          FlowLaws.flow_client-Sends network validate tenacity (default_client "flow")
            flow_payloads in
        let uc =
          UcLaws.uc_client-Sends network validate tenacity (default_client "uc") uc_payloads in
        (
          λ payload. rw (flow.create_flow_sends payload (some ctx) w) (creation_takes _ _ _ ctx w),
          λ flow_id. rw (flow.get_flow_sends flow_id (some ctx) w) (read_takes _ _ _ _ ctx w),
          λ flow_id.
              rw (get_flow_with_owner, flow.get_flow_sends flow_id (some ctx) w)
                (read_takes _ _ _ _ ctx w),
          rw (flow.list_flows_sends (some ctx) w) (read_takes _ _ _ _ ctx w),
          λ user_id. rw (uc.get_user_sends user_id (some ctx) w) (read_takes _ _ _ _ ctx w),
          λ username.
              rw (uc.get_user_by_username_sends username (some ctx) w) (read_takes _ _ _ _ ctx w),
        )

    -- If each sending takes at most `longest`, logging takes no time, and no wait is longer than the
    -- upper delay that it is given, then with the clients that `lifespan` makes a creation through the
    -- BFF takes at most `longest`, and each read at most three times that and ten seconds.
    pub routes_take :
        {T : Type 0} (settings : Settings) (flow uc : BaseServiceClient T)
        → init_flow settings.flow_api_base_url
            (with_timeout_and_pool settings.flow_timeout settings.connection_pool)
          ≡ built flow
        → init_uc settings.uc_api_base_url
            (with_timeout_and_pool settings.uc_timeout settings.connection_pool)
          ≡ built uc
        → Takes flow.settings uc.settings
    routes_take settings flow uc flow_built uc_built =
        rw (flow_settings settings flow flow_built, uc_settings settings uc uc_built) default-Takes
