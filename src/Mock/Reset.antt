-- ===== src/Mock/Reset.antt =====
-- packages/test-utils/src/novon_test_utils/mock_router.py: `MockRouter.reset` and `MockRouter.route`.
use platform_backend.Prelude.{
  String, ◌≡◌, refl, true, false, Option, none, some, List, Option-cases, inl, inr, ◌≢◌,
}
use platform_backend.Dict.{get, has}
use platform_backend.Dict.Laws.{get-put_ne, get-put_self, has-put_self}
use platform_backend.Mock.{
  UrlParts, RouteKey, key_eq, route_key, Item, MockRoute, MockRouter, register, new_route,
}

module _ {R E B : Type 0} (url : String → UrlParts)
    (iter_response : R → Option (List (Item R E))) where
  abbrev pub or_new : Option (MockRoute R E B) → MockRoute R E B
  or_new none = new_route
  or_new (some route) = route

  -- What `router.route(method, url)` does, by the key of the two arguments.
  pub record Registers (key : RouteKey) (router router' : MockRouter R E B) : Type 0 where
    pub here : get key router' ≡ some (or_new (get key router))
    pub elsewhere : (j : RouteKey) → key ≢ j → get j router' ≡ get j router
    pub again :
        (method text : String)
        → route_key url method text ≡ key
        → register url iter_response method text router' ≡ router'

  has_of_some :
      (key : RouteKey) (router : MockRouter R E B) {route : MockRoute R E B}
      → get key router ≡ some route
      → has key router ≡ true
  unfolding has
  has_of_some key router found = rw found refl

  has_of_none :
      (key : RouteKey) (router : MockRouter R E B) → get key router ≡ none → has key router ≡ false
  unfolding has
  has_of_none key router missing = rw missing refl

  -- Registering a method and a URL leaves under their key the route that is there already, its
  -- configuration and calls included, or else a new route that has neither; every other route stays as
  -- it is, and registering any spelling with the same key once more changes nothing.
  pub register-Registers :
      (method text : String) (router : MockRouter R E B)
      → Registers (route_key url method text) router (register url iter_response method text router)
  unfolding register
  register-Registers method text router =
      elim (Option-cases (get (route_key url method text) router)) [
        | inl missing ↦ rw (has_of_none (route_key url method text) router missing) (record {
          here = rw missing (get-put_self (route_key url method text) new_route router);
          elsewhere = λ j other. get-put_ne new_route router other;
          again =
              λ m t same. rw (same, has-put_self (route_key url method text) new_route router) refl;
        })
        | inr (route, found) ↦ rw (has_of_some (route_key url method text) router found) (record {
          here = rw found refl;
          elsewhere = λ j other. refl;
          again = λ m t same. rw (same, has_of_some (route_key url method text) router found) refl;
        })
      ]
