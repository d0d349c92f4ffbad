-- ===== src/Mock/Transport.antt =====
-- packages/test-utils/src/novon_test_utils/mock_router.py as the transport of
-- packages/core/src/novon/core/http/base_client.py: a route with a list of outcomes, under the retries.
-- `built` is the request that httpx2 makes of a client's. The router is all of the world here.
use platform_backend.Prelude.{
  ℕ, suc, ◌+◌, ◌≤◌, ◌≡◌, refl, ap, ◌∙◌, arith, true, false, Option, none, some, String, List, [],
  ◌∷◌, ◌++◌, length, ltb, if◌then◌else◌, ◌⊎◌, inl, inr, Bool-cases, string_eq,
}
use platform_backend.Dict.{Dict, get, merge}
use platform_backend.Core.Typehints.{Annotation}
use platform_backend.Core.Client.{
  Response, TransportError, Outcome, answered, broken, Returned, Result,
}
use platform_backend.Core.Client.Request as Client
use platform_backend.Core.Client.Request.{
  Network, Tenacity, ServiceClient, handle_outcome, request_once, attempt, request_with_retry,
  should_retry,
}
use platform_backend.Core.Client.Retry.{fails_transiently}
use platform_backend.Core.Client.Recovery.{loop, goes_on, stops}
use platform_backend.Mock.{
  UrlParts, RouteKey, key_eq, route_key, Request, Item, response, base_exception, of_item, Answer,
  iterable, MockRoute, MockRouter, handle,
}
use platform_backend.Mock.Order.{Serving, handle-serves, serves_item, answers_item}
use platform_backend.Mock.Verbs.{call_count}

abbrev pub outcome_of : {J : Type 0} → Item (Response J) TransportError → Outcome J
outcome_of (response r) = answered r
outcome_of (base_exception e) = broken e

module _ {R E B : Type 0} (url : String → UrlParts)
    (iter_response : R → Option (List (Item R E))) where
  unfoldable pub handle_async_request : Request B → MockRouter R E B → Answer R E × MockRouter R E B
  unfolding handle
  handle_async_request q router = handle url iter_response q router

  unfoldable pub handle_request : Request B → MockRouter R E B → Answer R E × MockRouter R E B
  unfolding handle
  handle_request q router = handle url iter_response q router

module _ {J B : Type 0} (url : String → UrlParts)
    (iter_response : Response J → Option (List (Item (Response J) TransportError)))
    (built : Client.Request J → Request B) where
  -- The client's transport is the router: what it answers is the outcome. Logging does not touch it.
  pub record Carries (network : Network (MockRouter (Response J) TransportError B) J) : Type 0 where
    pub sends :
        (req : Client.Request J) (item : Item (Response J) TransportError)
        (router : MockRouter (Response J) TransportError B)
        → (handle_async_request url iter_response (built req) router).0 ≡ of_item item
        → network.send req router
          ≡ (outcome_of item, (handle_async_request url iter_response (built req) router).1)
    pub quiet :
        (n stop : ℕ) (req : Client.Request J) (router : MockRouter (Response J) TransportError B)
        → network.warn n stop req router ≡ router

-- The request that the client hands to its transport.
abbrev pub sent :
    {J : Type 0}
    → String
    → String
    → Dict String String
    → Option J
    → Option (Dict String J)
    → Dict String String
    → Client.Request J
sent method path ctx_headers json params headers = record {
  method = method;
  path = path;
  headers = merge ctx_headers headers;
  json = json;
  params = params;
}

module _ {J M B : Type 0} (url : String → UrlParts)
    (iter_response : Response J → Option (List (Item (Response J) TransportError)))
    (built : Client.Request J → Request B)
    (network : Network (MockRouter (Response J) TransportError B) J)
    (carries : Carries url iter_response built network) (validate : Annotation → J → Option M)
    (tenacity : Tenacity (MockRouter (Response J) TransportError B) (Returned J M))
    (asleep : (lo hi n : ℕ) (router : MockRouter (Response J) TransportError B)
      → tenacity.sleep lo hi n router ≡ router)
    (c : ServiceClient) (model : Option Annotation) (key : RouteKey)
    (all : List (Item (Response J) TransportError)) where
  -- What the client makes of an item.
  abbrev pub result_of : Item (Response J) TransportError → Result (Returned J M)
  result_of item = handle_outcome validate c.service_name model (outcome_of item)

  abbrev pub AllTransient : List (Item (Response J) TransportError) → Type 0
  AllTransient [] = Unit
  AllTransient (item ∷ items) = (fails_transiently (result_of item) ≡ true) × AllTransient items

  -- The client ends with the last item, of which there are `called` before, and `rest` are left.
  abbrev EndsWith :
      Item (Response J) TransportError
      → List (Item (Response J) TransportError)
      → ℕ
      → Result (Returned J M) × MockRouter (Response J) TransportError B
      → Type 0
  EndsWith last rest called (result, router) =
      (result ≡ result_of last) × Serving key all rest (suc called) router

  module _ (req : Client.Request J)
      (same : route_key url (built req).method (built req).url ≡ key) where
    attempt_item :
        (n : ℕ) (router : MockRouter (Response J) TransportError B)
        (item : Item (Response J) TransportError) {rest : List (Item (Response J) TransportError)}
        {called : ℕ}
        → Serving key all (item ∷ rest) called router
        → EndsWith item rest called (attempt network validate tenacity c req model n router)
    unfolding attempt request_once handle_async_request
    attempt_item n router item {rest} h =
        let unlogged : (if ltb 1 n then network.warn n c.max_retries req router else router)
            ≡ router =
          elim (Bool-cases (ltb 1 n)) [
            | inl again ↦ rw again (carries.quiet n c.max_retries req router)
            | inr first ↦ rw first refl
          ] in
        let handled = handle-serves url iter_response key all (built req) router h same in
        rw
          (
            unlogged,
            carries.sends req item router (
                ap (λ p. p.0) handled
                ∙ answers_item url iter_response key all (built req) router item h),
            handled,
          )
          (refl, serves_item url iter_response key all (built req) router item h)

    loop_items :
        (items : List (Item (Response J) TransportError)) (last : Item (Response J) TransportError)
        {rest : List (Item (Response J) TransportError)} {called : ℕ} (n : ℕ)
        (router : MockRouter (Response J) TransportError B)
        → Serving key all (items ++ (last ∷ rest)) called router
        → AllTransient items
        → n + length items ≤ c.max_retries
        → (fails_transiently (result_of last) ≡ false) ⊎ (c.max_retries ≤ n + length items)
        → EndsWith last rest
            (called + length items)
            (loop network validate tenacity c req model n router)
    loop_items [] last {called = called} n router h transient le final =
        let (result, left) = attempt_item n router last h in
        let none_before : called + 0 ≡ called = omega arith in
        let ends : (fails_transiently (result_of last) ≡ false) ⊎ (c.max_retries ≤ n) = elim final [
          | inl lasting ↦ inl lasting
          | inr spent ↦ inr (omega arith)
        ] in
        rw
          (
            stops network validate tenacity c req model n router (result_of last) result ends,
            none_before,
          )
          (result, left)
    loop_items (item ∷ items) last {called = called} n router h (failed, transient) le final =
        let (result, left) = attempt_item n router item h in
        let ends : (fails_transiently (result_of last) ≡ false)
            ⊎ (c.max_retries ≤ (n + 1) + length items) =
          elim final [ inl lasting ↦ inl lasting | inr spent ↦ inr (omega arith) ] in
        let one_more : called + suc (length items) ≡ suc called + length items = omega arith in
        rw
          (
            goes_on network validate tenacity c req model n router (result_of item) result failed
                (omega arith),
            asleep,
            one_more,
          )
          (loop_items items last (n + 1) _ left transient (omega arith) ends)

  -- Let the client's transport be the router, which neither logging nor waiting touches, with a route
  -- for the request that has an iterable side effect and was not yet called, and let the client retry
  -- the method. If the iterable starts with outcomes that fail transiently, and the next one does not, or
  -- is the last that `max_retries` allows, then the request ends as that one says, and the route was
  -- called once for each of them and once more.
  pub request_over_router :
      (method path : String) (ctx_headers : Dict String String) (json : Option J)
      (params : Option (Dict String J)) (headers : Dict String String)
      (items : List (Item (Response J) TransportError)) (last : Item (Response J) TransportError)
      (rest : List (Item (Response J) TransportError))
      (router : MockRouter (Response J) TransportError B)
      (route : MockRoute (Response J) TransportError B)
      → route_key url
          (built (sent method path ctx_headers json params headers)).method
          (built (sent method path ctx_headers json params headers)).url
        ≡ key
      → should_retry network validate tenacity c method ≡ true
      → get key router ≡ some route
      → route.side_effect ≡ some (iterable all)
      → all ≡ items ++ (last ∷ rest)
      → route.side_effect_iter ≡ none
      → route.calls ≡ []
      → AllTransient items
      → suc (length items) ≤ c.max_retries
      → (fails_transiently (result_of last) ≡ false) ⊎ (suc (length items) ≡ c.max_retries)
      → (let (result, router') =
            Client.request network validate tenacity c method path ctx_headers model json params
              headers router in
          (result ≡ result_of last)
          × ((route' : MockRoute (Response J) TransportError B) × (get key router' ≡ some route')
              × (call_count route' ≡ suc (length items))))
  unfolding Client.request request_with_retry
  request_over_router method path ctx_headers json params headers items last rest router route same
        retried found effect split fresh uncalled transient le final =
      let serving : Serving key all (items ++ (last ∷ rest)) 0 router = record {
        route = route;
        found = found;
        effect = effect;
        left = rw (fresh, split) refl;
        count = rw uncalled refl;
      } in
      let ends : (fails_transiently (result_of last) ≡ false) ⊎ (c.max_retries ≤ 1 + length items) =
        elim final [ inl lasting ↦ inl lasting | inr spent ↦ inr (omega arith) ] in
      let (result, after) =
        loop_items _ same items last 1 router serving transient (omega arith) ends in
      let counted : length after.route.calls ≡ suc (length items) = omega (arith, after.count) in
      rw retried (result, (after.route, after.found, counted))
