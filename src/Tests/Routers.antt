-- ===== src/Tests/Routers.antt =====
-- The mock router as the transport of the client: a timeout, a 503, then a user.
use platform_backend.Prelude.{
  ℕ, ◌≡◌, refl, true, false, Option, none, some, List, [], ◌∷◌, ◌++◌, inl, arith, upper,
}
use platform_backend.Dict.{get, put}
use platform_backend.Dict.Laws.{get-put_self}
use platform_backend.Core.Client.{
  Response, TransportError, timeout_exception, other_error, map_http_error, map_transport_error,
  Outcome, answered, broken, ok, parsed, parse_response,
}
use platform_backend.Core.Client.Request as Client
use platform_backend.Core.Client.Request.{
  Network, ServiceClient, handle_outcome, is_transient, should_retry,
}
use platform_backend.Mock.{
  key_eq, route_key, Request, Item, response, base_exception, of_item, Answer, returned, raised,
  assertion_error, type_error, iterable, MockRoute, MockRouter,
}
use platform_backend.Mock.Verbs.{call_count}
use platform_backend.Mock.Transport.{outcome_of, handle_async_request, Carries, request_over_router}
use platform_backend.Tests.Retrying.{tenacity}
use platform_backend.Tests.Mocks.{url_of, users_key}
use platform_backend.UcApi.{str_type}
use platform_backend.Core.Typehints.{unwrap_optional}
use platform_backend.Tests.Calls.{client, validate}

abbrev Router : Type 0
Router = MockRouter (Response ℕ) TransportError ℕ

abbrev no_iter : Response ℕ → Option (List (Item (Response ℕ) TransportError))
no_iter r = none

abbrev built : Client.Request ℕ → Request ℕ
built req = record { method = req.method; url = req.path; body = 0 }

-- An AssertionError is not a transport error; here it stands for one.
abbrev outcome_of_answer : Answer (Response ℕ) TransportError → Outcome ℕ
outcome_of_answer (returned r) = answered r
outcome_of_answer (raised e) = broken e
outcome_of_answer (assertion_error text) = broken (other_error text)
outcome_of_answer type_error = broken (other_error "TypeError")

outcome_of_item :
    (item : Item (Response ℕ) TransportError) → outcome_of_answer (of_item item) ≡ outcome_of item
outcome_of_item (response r) = refl
outcome_of_item (base_exception e) = refl

abbrev network : Network Router ℕ
network = record {
  send = λ req router.
      let (answer, router') = handle_async_request url_of no_iter (built req) router in
      (outcome_of_answer answer, router');
  warn = λ n stop req router. router;
}

carries : Carries url_of no_iter built network
carries = record {
  sends = λ req item router h. rw h (rw (outcome_of_item item) refl);
  quiet = λ n stop req router. refl;
}

abbrev busy : Item (Response ℕ) TransportError
busy = response (record { status_code = 503; text = ""; content = []; json = none; raises = true })

abbrev slow : Item (Response ℕ) TransportError
slow = base_exception (timeout_exception "slow")

abbrev alice : Item (Response ℕ) TransportError
alice =
    response
      (record { status_code = 200; text = "7"; content = 55 ∷ []; json = some 7; raises = false })

abbrev items : List (Item (Response ℕ) TransportError)
items = slow ∷ busy ∷ []

abbrev users_route : MockRoute (Response ℕ) TransportError ℕ
users_route = record {
  return_value = none;
  side_effect = some (iterable (items ++ (alice ∷ [])));
  calls = [];
  side_effect_iter = none;
}

abbrev router : Router
router = (users_key, users_route) ∷ []

-- The client's two failures and its success are the route's three calls.
request_over_router_example :
    (let (result, router') =
        Client.request network validate tenacity client "GET" "/users/1" []
          (some str_type)
          none
          none
          []
          router in
      (result ≡ ok (parsed 7))
      × ((route' : MockRoute (Response ℕ) TransportError ℕ) × (get users_key router' ≡ some route')
          × (call_count route' ≡ 3)))
unfolding tenacity is_transient handle_outcome parse_response map_http_error map_transport_error
    validate unwrap_optional
request_over_router_example =
    request_over_router url_of no_iter built network carries validate tenacity (λ lo hi n r. refl)
      client (some str_type) users_key (items ++ (alice ∷ [])) "GET" "/users/1" [] none none []
      items alice [] router users_route (unfold route_key upper in refl)
      (unfold should_retry upper in refl) (unfold put in get-put_self users_key users_route []) refl
      refl refl refl (refl, (refl, tt)) (omega arith) (inl refl)
