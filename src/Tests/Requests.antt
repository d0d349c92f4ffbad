-- ===== src/Tests/Requests.antt =====
-- Declared calls, and what the BFF makes of them, at concrete inputs.
use platform_backend.Prelude.{
  ℕ, String, ◌≡◌, refl, false, none, some, List, [], ◌∷◌, string_eq, arith,
}
use platform_backend.Dict.{Dict, get, put, pop}
use platform_backend.Core.Typehints.{class_type}
use platform_backend.Core.Context.{RequestContext}
use platform_backend.Core.Client.{
  timeout_exception, Outcome, answered, broken, threw, Returned, Raised, raised, service_error,
  map_transport_error,
}
use platform_backend.Core.Client.Request.{
  request, should_retry, request_once, attempt, is_transient, handle_outcome, request_with_retry,
}
use platform_backend.Core.Client.Parsing.{gateway}
use platform_backend.Core.Feign.{is_word_char}
use platform_backend.Core.Feign.Format.{is_positional, format_map}
use platform_backend.Core.Feign.Quote.{is_always_safe, quote}
use platform_backend.Core.Feign.Template.{Segment, literal, placeholder, IsTemplate, fill}
use platform_backend.Core.Feign.Call.{
  Argument, prepared, prepare, context_headers, honoured, done, call_endpoint,
}
use platform_backend.Core.Feign.Call.Sends.{call_endpoint-sends}
use platform_backend.Core.Feign.Call.Declared.{sent, payload_bound}
use platform_backend.Core.Feign.Call.Paths.{count, prepare_path_delimiters}
use platform_backend.Bff.{user_read, answer, status_of}
use platform_backend.Bff.Outcomes.{asked, failed_call_status}
use platform_backend.Tests.Retrying.{tenacity, retrying, loop}
use platform_backend.Tests.Endpoints.{
  is_user_update, update_parameters, update_hints, update_spec, update_built,
}
use platform_backend.Tests.Calls.{script, send, validate, client}

quoted_once : quote "Zoë/a b" ≡ "Zo%C3%AB%2Fa%20b"
unfolding quote
quoted_once = refl

abbrev one_user : List Segment
one_user = literal "/users/" ∷ placeholder "user_id" ∷ []

one_user-IsTemplate : IsTemplate one_user
unfolding is_word_char is_positional
one_user-IsTemplate = ground arith

abbrev user_argument : Argument ℕ
user_argument = record { is_none = false; text = "../a?b"; value = 1; dump = λ partial. 1 }

abbrev update_argument : Argument ℕ
update_argument = record { is_none = false; text = "{}"; value = 2; dump = λ partial. 3 }

abbrev update_arguments : Dict String (Argument ℕ)
update_arguments = ("user_id", user_argument) ∷ ("payload", update_argument) ∷ []

abbrev tracing : RequestContext
tracing = record {
  auth_token = none;
  request_id = some "r1";
  trace_id = none;
  user_id = some "ann";
}

abbrev script_of : List (Outcome ℕ)
script_of = broken (timeout_exception "slow") ∷ []

call_endpoint-sends_example :
    call_endpoint script validate tenacity client update_spec
      (some (class_type "UserResponse"))
      (some tracing)
      update_arguments
      script_of
    ≡ (let (result, w') =
          request script validate tenacity client "PATCH" "/users/..%2Fa%3Fb"
            (context_headers (some tracing))
            (some (class_type "UserResponse"))
            (some 3)
            none
            []
            script_of in
        (done (honoured false result), w'))
unfolding quote get
call_endpoint-sends_example =
    call_endpoint-sends is_user_update "PATCH" one_user update_parameters update_hints update_spec
      one_user-IsTemplate update_built update_arguments script validate tenacity client
      (some (class_type "UserResponse")) (some tracing) script_of refl refl refl
      (λ name h. payload_bound update_argument update_arguments name refl h)

update_prepared : prepare update_spec update_arguments ≡ prepared "/users/..%2Fa%3Fb" (some 3) none
unfolding prepare quote get format_map put pop
update_prepared = refl

prepare_path_delimiters_example :
    count b'/' "/users/..%2Fa%3Fb" ≡ count b'/' (fill (λ name. "") one_user)
unfolding is_always_safe
prepare_path_delimiters_example =
    prepare_path_delimiters is_user_update "PATCH" one_user update_parameters update_hints
      update_spec one_user-IsTemplate update_built update_arguments b'/' "/users/..%2Fa%3Fb"
      (some 3) none refl update_prepared

abbrev outage : List (Outcome ℕ)
outage =
    broken (timeout_exception "slow")
    ∷ broken (timeout_exception "slow")
    ∷ broken (timeout_exception "slower")
    ∷ answered (record {
      status_code = 200;
      text = "{}";
      content = 123 ∷ 125 ∷ [];
      json = some 7;
      raises = false;
    })
    ∷ []

abbrev timed_out : Raised
timed_out = service_error (map_transport_error (timeout_exception "slower") "uc")

three_timeouts :
    (sent script validate tenacity client false "GET" "/users/1"
      (some (class_type "UserResponse"))
      none
      none
      (some tracing)
      outage).0
    ≡ done (raised timed_out)
unfolding request should_retry request_with_retry request_once attempt is_transient handle_outcome
    map_transport_error tenacity retrying loop send validate
three_timeouts = refl

-- A body that does not decompress is no transport error of httpx2: the caller gets a 500.
undecodable :
    status_of (
      answer user_read
        (sent script validate tenacity client false "GET" "/users/1"
          (some (class_type "UserResponse"))
          none
          none
          (some tracing)
          (threw "incorrect header check" ∷ [])).0)
    ≡ 500
unfolding request should_retry request_with_retry request_once attempt is_transient handle_outcome
    tenacity retrying loop send answer
undecodable = refl

failed_call_status_example :
    (v : List (Outcome ℕ)) × (status_of
        (answer {A = Returned ℕ ℕ} user_read (done (raised timed_out)))
      ≡ gateway
          (script.send
            (asked script validate tenacity client "GET" "/users/1" none none (some tracing))
            v).0)
    × ((sent script validate tenacity client false "GET" "/users/1"
          (some (class_type "UserResponse"))
          none
          none
          (some tracing)
          outage).1
        ≡ (script.send
            (asked script validate tenacity client "GET" "/users/1" none none (some tracing))
            v).1)
failed_call_status_example =
    failed_call_status script validate tenacity client false "GET" "/users/1"
      (some (class_type "UserResponse")) none none (some tracing) outage user_read timed_out tt
      three_timeouts
