-- ===== src/Tests/Timing.antt =====
-- How long requests take over a network where every request times out: the world is the clock, in
-- milliseconds.
use platform_backend.Prelude.{ℕ, ◌+◌, ◌≡◌, refl, false, arith, none, some, []}
use platform_backend.UcApi.{str_type}
use platform_backend.Core.Client.{timeout_exception, broken, Returned, map_transport_error}
use platform_backend.Core.Client.Request.{
  Network, Tenacity, request, request_once, request_with_retry, attempt, should_retry,
  handle_outcome, is_transient,
}
use platform_backend.Core.Client.Init.{built, init}
use platform_backend.Core.Context.{RequestContext}
use platform_backend.Core.Feign.Call.{Argument}
use platform_backend.UcApi.Client.{init_uc}
use platform_backend.UcApi.Client as Uc
use platform_backend.FlowApi.Client.{init_flow}
use platform_backend.FlowApi.Client as Flow
use platform_backend.Bff.Lifespan.{default_settings, with_timeout_and_pool, AppClients}
use platform_backend.Bff.Lifespan.Closing.{clients_of}
use platform_backend.Bff.Latency.{Takes, routes_take}
use platform_backend.Tests.Retrying.{waiting_tenacity, retrying, loop}
use platform_backend.Tests.Calls.{validate, client}

abbrev slow : Network ℕ ℕ
slow = record {
  send = λ req w. (broken (timeout_exception "slow"), w + 10000);
  warn = λ n of_n req w. w;
}

-- Each wait is as long as it may be.
abbrev longest : Tenacity ℕ (Returned ℕ ℕ)
longest = waiting_tenacity (λ lo hi n w. w + hi)

-- The bound is reached.
slowest :
    (request slow validate longest client "GET" "/users/1" [] (some str_type) none none [] 0).1
    ≡ 40000
unfolding request request_with_retry attempt request_once handle_outcome is_transient should_retry
    map_transport_error retrying loop
slowest = refl

abbrev zeros : Argument ℕ
zeros = record { is_none = false; text = ""; value = 0; dump = λ partial. 0 }

abbrev user_payloads : Uc.Payloads ℕ
user_payloads = record { of_text = λ s. 0; of_create = λ p. zeros; of_update = λ u. zeros }

abbrev flow_payloads : Flow.Payloads ℕ
flow_payloads = record { of_text = λ s. 0; of_create = λ p. zeros; of_update = λ u. zeros }

abbrev caller : RequestContext
caller = record { auth_token = none; request_id = some "r"; trace_id = some "t"; user_id = none }

abbrev clients : AppClients ℕ
clients = clients_of default_settings

flow_is_built :
    init_flow default_settings.flow_api_base_url
      (with_timeout_and_pool default_settings.flow_timeout default_settings.connection_pool)
    ≡ built clients.flow
unfolding init
flow_is_built = refl

uc_is_built :
    init_uc default_settings.uc_api_base_url
      (with_timeout_and_pool default_settings.uc_timeout default_settings.connection_pool)
    ≡ built clients.uc
unfolding init
uc_is_built = refl

routes_take_example :
    Takes slow validate longest
      (λ w. w)
      10000
      (λ req w. omega arith)
      (λ n of_n req w. omega arith)
      (λ lo hi n w h. omega arith)
      flow_payloads
      user_payloads
      caller
      0
      clients.flow.settings
      clients.uc.settings
routes_take_example =
    routes_take slow validate longest (λ w. w) 10000 (λ req w. omega arith)
      (λ n of_n req w. omega arith) (λ lo hi n w h. omega arith) flow_payloads user_payloads caller
      0 default_settings clients.flow clients.uc flow_is_built uc_is_built
