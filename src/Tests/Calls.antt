-- ===== src/Tests/Calls.antt =====
-- The client at concrete inputs: a network that follows a script, and a retry loop on fuel.
use platform_backend.Prelude.{
  ℕ, ◌≤◌, String, ◌≡◌, ◌⊎◌, inl, refl, Option, none, some, List, [], ◌∷◌, string_eq, true, false,
  Bool, arith,
}
use platform_backend.Dict.{merge}
use platform_backend.Core.Typehints.{Annotation, unwrap_optional}
use platform_backend.UcApi.{str_type}
use platform_backend.Core.Client.{
  Response, timeout_exception, Outcome, answered, broken, parsed, Raised, service_error, ok, raised,
  parse_response, map_http_error, map_transport_error,
}
use platform_backend.Core.Client.Request.{
  Request, Network, ServiceClient, handle_outcome, request_once, attempt, request_with_retry,
  request, is_transient, should_retry,
}
use platform_backend.Tests.Retrying.{tenacity, retrying, loop}
use platform_backend.Core.Client.Parsing.{handle_outcome-IsMapped, IsMapped}
use platform_backend.Core.Client.Retry.{
  Fails, fails_transiently, request_with_retry-Ends, request_sends_once,
}

-- The world is the outcomes to come; when they run out, the transport times out.
unfoldable pub send : Request ℕ → List (Outcome ℕ) → Outcome ℕ × List (Outcome ℕ)
send req [] = (broken (timeout_exception "script ended"), [])
send req (o ∷ os) = (o, os)

abbrev pub script : Network (List (Outcome ℕ)) ℕ
script = record { send = send; warn = λ n of_n req w. w }

unfoldable pub validate : Annotation → ℕ → Option ℕ
validate a j = some j

abbrev pub client : ServiceClient
client = record {
  service_name = "uc";
  max_retries = 3;
  retry_min_delay = 100;
  retry_max_delay = 5000;
}

abbrev answer : ℕ → Bool → Response ℕ
answer status raises = record {
  status_code = status;
  text = "{}";
  content = 123 ∷ 125 ∷ [];
  json = some 7;
  raises = raises;
}

abbrev down_then_up : List (Outcome ℕ)
down_then_up =
    broken (timeout_exception "slow")
    ∷ answered (answer 503 true)
    ∷ answered (answer 200 false)
    ∷ []

abbrev reading : Request ℕ
reading = record { method = "GET"; path = "/users/1"; headers = []; json = none; params = none }

third_attempt :
    request_with_retry script validate tenacity client reading (some str_type) down_then_up
    ≡ (ok (parsed 7), [])
unfolding request_with_retry attempt request_once handle_outcome parse_response is_transient
    map_http_error map_transport_error tenacity retrying loop send validate unwrap_optional
third_attempt = refl

not_retried :
    (request script validate tenacity client "POST" "/users" []
      (some str_type)
      (some 1)
      none
      []
      down_then_up).1
    ≡ answered (answer 503 true) ∷ answered (answer 200 false) ∷ []
unfolding request should_retry request_once send
not_retried = refl

request_with_retry-Ends_example :
    (m : ℕ) × (v : List (Outcome ℕ)) × Fails script validate tenacity client reading
      (some str_type)
      1
      down_then_up
      m
      v
    × (1 ≤ m)
    × (m ≤ 3)
    × (request_with_retry script validate tenacity client reading (some str_type) down_then_up
        ≡ attempt script validate tenacity client reading (some str_type) m v)
    × ((fails_transiently (attempt script validate tenacity client reading (some str_type) m v).0
          ≡ false)
        ⊎ (m ≡ 3))
request_with_retry-Ends_example =
    request_with_retry-Ends script validate tenacity client reading (some str_type) down_then_up
      (omega arith)

request_sends_once_example :
    (request script validate tenacity client "POST" "/users" []
      (some str_type)
      (some 1)
      none
      []
      down_then_up).1
    ≡ (script.send
        (record {
          method = "POST";
          path = "/users";
          headers = merge {V = String} [] [];
          json = some 1;
          params = none;
        })
        down_then_up).1
request_sends_once_example =
    request_sends_once script validate tenacity client "POST" "/users" [] (some str_type) (some 1)
      none [] down_then_up (inl refl)

abbrev down_error : Raised
down_error = service_error (map_http_error 503 "{}" "uc")

down_raises :
    handle_outcome validate "uc" (some str_type) (answered (answer 503 true)) ≡ raised down_error
unfolding handle_outcome
down_raises = refl

handle_outcome-IsMapped_example : IsMapped validate "uc" (answered (answer 503 true)) down_error
handle_outcome-IsMapped_example =
    handle_outcome-IsMapped validate "uc" (some str_type) (answered (answer 503 true)) down_error tt
      down_raises
