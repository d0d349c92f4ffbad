-- ===== src/Mock.antt =====
-- packages/test-utils/src/novon_test_utils/mock_router.py: the transport that answers from
-- registered routes. A route object is reached by its key in the router; handles kept across `clear`
-- are not followed. `R` is the type of an httpx2 response, `E` of an exception, `B` of what a request
-- holds besides its method and URL. `url` is `httpx2.URL`, read as its components, and `iter_response`
-- is `iter(response)`, which is `none` where it raises a TypeError. An iterable side effect is a list.
mod Key
pub mod Calls
pub mod Reset
pub mod Order
pub mod Verbs
pub mod Responses
pub mod Counts
pub mod Transport
unfoldable pub use Key.*
use platform_backend.Prelude.{
  ℕ, suc, String, ◌&◌, ◌≡◌, refl, ◌↔◌, Bool, true, false, ◌&&◌, Option, none, some, List, [], ◌∷◌,
  ◌++◌, Eq, ◌==◌, beq_self, nat_beq, nat_eq, string_eq, eq_iff, nat_beq_iff, if◌then◌else◌, length,
  str_of_nat, upper, ltb, arith, Bool-cases, inl, inr,
}
use platform_backend.Dict.{Dict, get, has, put}

pub record Request (B : Type 0) : Type 0 where
  pub method : String
  pub url : String
  pub body : B

module _ (R E : Type 0) where
  -- What an iterable yields, and what a callable returns.
  pub data Item : Type 0 where
    response : R → Item
    base_exception : E → Item

  -- A request is answered, or an exception leaves the transport.
  pub data Answer : Type 0 where
    returned : R → Answer
    raised : E → Answer
    assertion_error : String → Answer
    type_error : Answer

module _ {R E : Type 0} where
  abbrev pub of_item : Item R E → Answer R E
  of_item (response r) = returned r
  of_item (base_exception e) = raised e

  abbrev pub exhausted : ℕ → Answer R E
  exhausted n =
      assertion_error
        ("side_effect exhausted after " & (str_of_nat n & " call(s); no more responses to return"))

module _ (R E B : Type 0) where
  pub data SideEffect : Type 0 where
    lone_response : R → SideEffect
    exception : E → SideEffect
    callable : (Request B → Item R E) → SideEffect
    iterable : List (Item R E) → SideEffect

  pub record MockRoute : Type 0 where
    pub return_value : Option R
    pub side_effect : Option SideEffect
    pub calls : List (Request B)
    pub side_effect_iter : Option (List (Item R E))

  abbrev pub MockRouter : Type 0
  MockRouter = Dict RouteKey MockRoute

module _ {R E B : Type 0} where
  abbrev pub new_route : MockRoute R E B
  new_route = record {
    return_value = none;
    side_effect = none;
    calls = [];
    side_effect_iter = none;
  }

  unfoldable pub record_call : Request B → MockRoute R E B → MockRoute R E B
  record_call q route = record {
    return_value = route.return_value;
    side_effect = route.side_effect;
    calls = route.calls ++ (q ∷ []);
    side_effect_iter = route.side_effect_iter;
  }

  unfoldable pub keep_iter : List (Item R E) → MockRoute R E B → MockRoute R E B
  keep_iter items route = record {
    return_value = route.return_value;
    side_effect = route.side_effect;
    calls = route.calls;
    side_effect_iter = some items;
  }

  unfoldable pub next_item : List (Item R E) → MockRoute R E B → Answer R E × MockRoute R E B
  unfolding keep_iter
  next_item [] route = (exhausted (length route.calls), keep_iter [] route)
  next_item (item ∷ items) route = (of_item item, keep_iter items route)

  abbrev pub iterate :
      Option (List (Item R E))
      → Option (List (Item R E))
      → MockRoute R E B
      → Answer R E × MockRoute R E B
  iterate (some left) started route = next_item left route
  iterate none (some items) route = next_item items route
  iterate none none route = (type_error, route)

  unfoldable pub reset_route : MockRoute R E B → MockRoute R E B
  reset_route route = record {
    return_value = route.return_value;
    side_effect = route.side_effect;
    calls = [];
    side_effect_iter = none;
  }

  unfoldable pub reset : MockRouter R E B → MockRouter R E B
  unfolding reset_route
  reset [] = []
  reset ((key, route) ∷ router) = (key, reset_route route) ∷ reset router

module _ {R E B : Type 0} (url : String → UrlParts)
    (iter_response : R → Option (List (Item R E))) where
  unfoldable pub resolve_side_effect :
      SideEffect R E B → Request B → MockRoute R E B → Answer R E × MockRoute R E B
  resolve_side_effect (exception e) q route = (raised e, route)
  resolve_side_effect (callable f) q route = (of_item (f q), route)
  resolve_side_effect (lone_response r) q route =
      iterate route.side_effect_iter (iter_response r) route
  resolve_side_effect (iterable items) q route = iterate route.side_effect_iter (some items) route

  abbrev pub resolve_effect_or :
      Option (SideEffect R E B)
      → Option R
      → Request B
      → MockRoute R E B
      → Option (Answer R E) × MockRoute R E B
  resolve_effect_or (some effect) value q route =
      let (answer, route') = resolve_side_effect effect q route in (some answer, route')
  resolve_effect_or none (some value) q route = (some (returned value), route)
  resolve_effect_or none none q route = (none, route)

  unfoldable pub resolve_response :
      Request B → MockRoute R E B → Option (Answer R E) × MockRoute R E B
  resolve_response q route = resolve_effect_or route.side_effect route.return_value q route

  -- `MockRouter.route`: the router after it; the route returned is the one under the key.
  unfoldable pub register : String → String → MockRouter R E B → MockRouter R E B
  unfolding route_key
  register method text router =
      let key = route_key url method text in
      if has key router then router else put key new_route router

  abbrev pub unset : Request B → Option (Answer R E) → Answer R E
  unset q (some answer) = answer
  unset q none =
      assertion_error
        ("Route for " & (q.method & (" " & (q.url & " has no return_value or side_effect set"))))

  abbrev pub handle_route :
      RouteKey
      → Option (MockRoute R E B)
      → Request B
      → MockRouter R E B
      → Answer R E × MockRouter R E B
  handle_route key none q router =
      (assertion_error ("No mock route registered for " & (q.method & (" " & q.url))), router)
  handle_route key (some route) q router =
      let (answer, route') = resolve_response q (record_call q route) in
      (unset q answer, put key route' router)

  -- `MockRouter._handle`
  unfoldable pub handle : Request B → MockRouter R E B → Answer R E × MockRouter R E B
  unfolding route_key
  handle q router =
      let key = route_key url q.method q.url in handle_route key (get key router) q router

  unfoldable pub handle_all :
      List (Request B) → MockRouter R E B → List (Answer R E) × MockRouter R E B
  handle_all [] router = ([], router)
  handle_all (q ∷ qs) router =
      let (answer, router') = handle q router in
      let (answers, router'') = handle_all qs router' in (answer ∷ answers, router'')
