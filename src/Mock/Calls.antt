-- ===== src/Mock/Calls.antt =====
-- packages/test-utils/src/novon_test_utils/mock_router.py: what a request leaves in the router.
use platform_backend.Prelude.{
  String, ◌≡◌, refl, Option, none, some, List, [], ◌∷◌, ◌++◌, ◌==◌, if◌then◌else◌, Option-cases,
  Bool-cases, inl, inr,
}
use platform_backend.Dict.{get, put}
use platform_backend.Dict.Laws.{get-put}
use platform_backend.Mock.{
  UrlParts, RouteKey, key_eq, route_key, Request, Item, SideEffect, lone_response, exception,
  callable, iterable, MockRoute, MockRouter, record_call, keep_iter, next_item, iterate,
  resolve_side_effect, resolve_effect_or, resolve_response, handle, unset,
}

-- A route that differs at most in its iterator.
pub record Keeps {R E B : Type 0} (old new : MockRoute R E B) : Type 0 where
  pub same_value : new.return_value ≡ old.return_value
  pub same_effect : new.side_effect ≡ old.side_effect
  pub same_calls : new.calls ≡ old.calls

abbrev kept_all : {R E B : Type 0} {route : MockRoute R E B} → Keeps route route
kept_all = record { same_value = refl; same_effect = refl; same_calls = refl }

abbrev pub and_then :
    {B : Type 0} → Option (List (Request B)) → Request B → Option (List (Request B))
and_then none q = none
and_then (some calls) q = some (calls ++ (q ∷ []))

module _ {R E B : Type 0} where
  next_item-Keeps :
      (items : List (Item R E)) (route : MockRoute R E B) → Keeps route (next_item items route).1
  unfolding next_item keep_iter
  next_item-Keeps [] route = record { same_value = refl; same_effect = refl; same_calls = refl }
  next_item-Keeps (item ∷ items) route = record {
    same_value = refl;
    same_effect = refl;
    same_calls = refl;
  }

  iterate-Keeps :
      (left started : Option (List (Item R E))) (route : MockRoute R E B)
      → Keeps route (iterate left started route).1
  iterate-Keeps (some left) started route = next_item-Keeps left route
  iterate-Keeps none (some items) route = next_item-Keeps items route
  iterate-Keeps none none route = kept_all

  abbrev pub calls_in : Option (MockRoute R E B) → Option (List (Request B))
  calls_in none = none
  calls_in (some route) = some route.calls

  -- `route.calls` under a key, where a route is registered.
  unfoldable pub calls_of : RouteKey → MockRouter R E B → Option (List (Request B))
  calls_of key router = calls_in (get key router)

module _ {R E B : Type 0} (url : String → UrlParts)
    (iter_response : R → Option (List (Item R E))) where
  resolve_side_effect-Keeps :
      (effect : SideEffect R E B) (q : Request B) (route : MockRoute R E B)
      → Keeps route (resolve_side_effect url iter_response effect q route).1
  unfolding resolve_side_effect
  resolve_side_effect-Keeps (exception e) q route = kept_all
  resolve_side_effect-Keeps (callable f) q route = kept_all
  resolve_side_effect-Keeps (lone_response r) q route =
      iterate-Keeps route.side_effect_iter (iter_response r) route
  resolve_side_effect-Keeps (iterable items) q route =
      iterate-Keeps route.side_effect_iter (some items) route

  resolve_effect_or-Keeps :
      (effect : Option (SideEffect R E B)) (value : Option R) (q : Request B)
      (route : MockRoute R E B)
      → Keeps route (resolve_effect_or url iter_response effect value q route).1
  resolve_effect_or-Keeps (some effect) value q route = resolve_side_effect-Keeps effect q route
  resolve_effect_or-Keeps none (some value) q route = kept_all
  resolve_effect_or-Keeps none none q route = kept_all

  pub resolve_response-Keeps :
      (q : Request B) (route : MockRoute R E B)
      → Keeps route (resolve_response url iter_response q route).1
  unfolding resolve_response
  resolve_response-Keeps q route =
      resolve_effect_or-Keeps route.side_effect route.return_value q route

  pub handle_found :
      (q : Request B) (router : MockRouter R E B) {route : MockRoute R E B}
      → get (route_key url q.method q.url) router ≡ some route
      → handle url iter_response q router ≡ (
        unset url iter_response q (resolve_response url iter_response q (record_call q route)).0,
        put
            (route_key url q.method q.url)
            (resolve_response url iter_response q (record_call q route)).1
            router,
      )
  unfolding handle
  handle_found q router found = rw found refl

  pub handle_missing :
      (q : Request B) (router : MockRouter R E B)
      → get (route_key url q.method q.url) router ≡ none
      → (handle url iter_response q router).1 ≡ router
  unfolding handle
  handle_missing q router missing = rw missing refl

  calls_of_found :
      (key j : RouteKey) (q : Request B) (router : MockRouter R E B) {old : MockRoute R E B}
      (new : MockRoute R E B)
      → get key router ≡ some old
      → new.calls ≡ old.calls ++ (q ∷ [])
      → calls_of j (put key new router)
        ≡ (if key == j then and_then (calls_of j router) q else calls_of j router)
  unfolding calls_of
  calls_of_found key j q router new found grown = elim (Bool-cases (key == j)) [
    | inl same ↦
        rw (get-put key j new router, same, ← ((key_eq.beq_iff key j).0 same), found, grown) refl
    | inr other ↦ rw (get-put key j new router, other) refl
  ]

  calls_of_missing :
      (key j : RouteKey) (q : Request B) (router : MockRouter R E B)
      → get key router ≡ none
      → calls_of j router ≡ (if key == j then and_then (calls_of j router) q else calls_of j router)
  unfolding calls_of
  calls_of_missing key j q router missing = elim (Bool-cases (key == j)) [
    | inl same ↦
        let here : get j router ≡ none = rw (← ((key_eq.beq_iff key j).0 same)) missing in
        rw (same, here) refl
    | inr other ↦ rw other refl
  ]

  -- Whatever a request is answered with, and also where an exception is raised, it is appended to the
  -- calls of the route under its key, if one is registered, and no other route's calls change.
  pub calls_of-handle :
      (q : Request B) (router : MockRouter R E B) (j : RouteKey)
      → calls_of j (handle url iter_response q router).1 ≡ (
          if route_key url q.method q.url == j
          then and_then (calls_of j router) q
          else calls_of j router)
  calls_of-handle q router j = elim (Option-cases (get (route_key url q.method q.url) router)) [
    | inl missing ↦ rw (handle_missing q router missing) (calls_of_missing _ j q router missing)
    | inr (route, found) ↦ rw (handle_found q router found) (
        calls_of_found (route_key url q.method q.url) j q router _ found
          (unfold record_call in (resolve_response-Keeps q (record_call q route)).same_calls))
  ]
