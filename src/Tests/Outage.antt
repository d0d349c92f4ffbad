-- ===== src/Tests/Outage.antt =====
-- A read of a user through the BFF while UC is unreachable for two attempts.
use platform_backend.Prelude.{ℕ, zero, suc, refl, arith, some}
use platform_backend.Core.Client.{
  timeout_exception, Outcome, answered, broken, Returned, map_transport_error,
}
use platform_backend.Core.Client.Request.{
  Network, request_once, attempt, handle_outcome, is_transient,
}
use platform_backend.Core.Client.Retry.{Fails, start, again}
use platform_backend.UcApi.Client.{uc_service_client, service_client, user_type}
use platform_backend.FlowApi.Protocol.{FlowApi}
use platform_backend.FlowApi.Client as FlowClient
use platform_backend.Core.Feign.Call.{Called}
use platform_backend.Uc.{ok}
use platform_backend.Uc.Invariant.{new_user-IsUserResponse}
use platform_backend.Bff.{user_read, get_user}
use platform_backend.Bff.Replies.{Answers}
use platform_backend.Bff.Recovery.{user_request, user_read_recovers}
use platform_backend.Tests.Retrying.{tenacity}
use platform_backend.Tests.Users.{bob, payload_of}
use platform_backend.Tests.Services.{
  Json, of_user, validate, respond, respond-Writes, valid, user_payloads, flow_payloads, ctx,
}

-- The world is how many requests are still to time out; then UC answers.
send_after : ℕ → Outcome Json × ℕ
send_after zero = (answered (respond of_user (ok bob)), zero)
send_after (suc n) = (broken (timeout_exception "down"), n)

network : Network ℕ Json
network = record { send = λ req w. send_after w; warn = λ n of_n req w. w }

flow_client : FlowApi ℕ (Called (Returned Json Json))
unfolding FlowClient.service_client
flow_client =
    FlowClient.service_client network validate tenacity (FlowClient.flow_service_client 3 100 5000)
      flow_payloads

two_failures :
    Fails network validate tenacity
      (uc_service_client 3 100 5000)
      (user_request network validate tenacity (uc_service_client 3 100 5000) "user_2" ctx)
      (some user_type)
      1
      2
      3
      0
unfolding network send_after attempt request_once handle_outcome is_transient map_transport_error
    tenacity
two_failures = again (again start refl) refl

user_read_recovers_example : Answers user_read 200 of_user (ok bob) 0 (
    get_user flow_client
      (service_client network validate tenacity (uc_service_client 3 100 5000) user_payloads)
      "user_2"
      ctx
      2)
unfolding network send_after
user_read_recovers_example =
    user_read_recovers network validate tenacity (uc_service_client 3 100 5000) user_payloads
      flow_client of_user of_user (respond of_user) (respond-Writes of_user)
      (λ user typed. valid of_user user_type user) "user_2" ctx 2 0 3 0 (ok bob) two_failures
      (omega arith) refl tt (new_user-IsUserResponse (payload_of "bob") 2 "2")
