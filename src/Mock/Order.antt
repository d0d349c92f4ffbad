-- ===== src/Mock/Order.antt =====
-- packages/test-utils/src/novon_test_utils/mock_router.py: an iterable side effect over many requests.
use platform_backend.Prelude.{
  ℕ, zero, suc, String, ◌≡◌, refl, Option, none, some, List, [], ◌∷◌, ◌++◌, length, length-append,
  ap, ◌∙◌, arith,
}
use platform_backend.Dict.{get, put}
use platform_backend.Dict.Laws.{get-put_self}
use platform_backend.Mock.{
  UrlParts, RouteKey, key_eq, route_key, Request, Item, Answer, of_item, exhausted, iterable,
  MockRoute, MockRouter, record_call, keep_iter, next_item, iterate, resolve_effect_or,
  resolve_side_effect, resolve_response, handle, handle_all,
}
use platform_backend.Mock.Calls.{handle_found}

module _ {R E : Type 0} where
  -- The answers to `n` more requests after `called` calls, when the items are still to come.
  unfoldable pub served : List (Item R E) → ℕ → ℕ → List (Answer R E)
  served items called zero = []
  served [] called (suc n) = exhausted (suc called) ∷ served [] (suc called) n
  served (item ∷ items) called (suc n) = of_item item ∷ served items (suc called) n

abbrev or_all {ℓ} : {A : Type ℓ} → Option A → A → A
or_all none all = all
or_all (some left) all = left

-- Every request of the list has the key.
module _ (url : String → UrlParts) {B : Type 0} where
  abbrev pub AllFor : RouteKey → List (Request B) → Type 0
  AllFor key [] = Unit
  AllFor key (q ∷ qs) = (route_key url q.method q.url ≡ key) × AllFor key qs

iterate-starts :
    {R E B : Type 0} (left : Option (List (Item R E))) (all : List (Item R E))
    (route : MockRoute R E B)
    → iterate left (some all) route ≡ next_item (or_all left all) route
iterate-starts none all route = refl
iterate-starts (some left) all route = refl

-- A route under the key is answering from the iterable `all`: `items` are left, `called` calls made.
pub record Serving {R E B : Type 0} (key : RouteKey) (all items : List (Item R E)) (called : ℕ)
    (router : MockRouter R E B) : Type 0 where
  pub route : MockRoute R E B
  pub found : get key router ≡ some route
  pub effect : route.side_effect ≡ some (iterable all)
  pub left : or_all route.side_effect_iter all ≡ items
  pub count : length route.calls ≡ called

module _ {R E B : Type 0} (url : String → UrlParts) (iter_response : R → Option (List (Item R E)))
    (key : RouteKey) (all : List (Item R E)) where
  effect-serves :
      (q : Request B) (value : Option R) (route : MockRoute R E B) {items : List (Item R E)}
      → or_all route.side_effect_iter all ≡ items
      → resolve_effect_or url iter_response (some (iterable all)) value q route
        ≡ (some (next_item items route).0, (next_item items route).1)
  unfolding resolve_side_effect
  effect-serves q value route left = rw (iterate-starts route.side_effect_iter all route, left) refl

  resolve-serves :
      (q : Request B) (route : MockRoute R E B) {items : List (Item R E)}
      → route.side_effect ≡ some (iterable all)
      → or_all route.side_effect_iter all ≡ items
      → resolve_response url iter_response q (record_call q route) ≡ (
        some (next_item items (record_call q route)).0,
        (next_item items (record_call q route)).1,
      )
  unfolding resolve_response record_call
  resolve-serves q route effect left =
      ap (λ e. resolve_effect_or url iter_response e route.return_value q (record_call q route))
        effect
      ∙ effect-serves q route.return_value (record_call q route) left

  pub handle-serves :
      (q : Request B) (router : MockRouter R E B) {items : List (Item R E)} {called : ℕ}
      (h : Serving key all items called router)
      → route_key url q.method q.url ≡ key
      → handle url iter_response q router ≡ (
        (next_item items (record_call q h.route)).0,
        put key (next_item items (record_call q h.route)).1 router,
      )
  handle-serves q router h same =
      rw
        (
          handle_found url iter_response q router {route = h.route} (rw same h.found),
          same,
          resolve-serves q h.route h.effect h.left,
        )
        refl

  module _ (q : Request B) (router : MockRouter R E B) {called : ℕ} where
    counted :
        (route : MockRoute R E B)
        → length route.calls ≡ called
        → length (route.calls ++ (q ∷ [])) ≡ suc called
    counted route count = omega (arith, length-append route.calls (q ∷ []))

    pub serves_item :
        (item : Item R E) {items : List (Item R E)}
        → (h : Serving key all (item ∷ items) called router)
        → Serving key all items
            (suc called)
            (put key (next_item (item ∷ items) (record_call q h.route)).1 router)
    unfolding next_item keep_iter record_call
    serves_item item h = record {
      route = _;
      found = get-put_self key _ router;
      effect = h.effect;
      left = refl;
      count = counted h.route h.count;
    }

    pub answers_item :
        (item : Item R E) {items : List (Item R E)}
        → (h : Serving key all (item ∷ items) called router)
        → (next_item (item ∷ items) (record_call q h.route)).0 ≡ of_item item
    unfolding next_item
    answers_item item h = refl

    serves_none :
        (h : Serving key all [] called router)
        → Serving key all [] (suc called) (put key (next_item [] (record_call q h.route)).1 router)
    unfolding next_item keep_iter record_call
    serves_none h = record {
      route = _;
      found = get-put_self key _ router;
      effect = h.effect;
      left = refl;
      count = counted h.route h.count;
    }

    answers_none :
        (h : Serving key all [] called router)
        → (next_item [] (record_call q h.route)).0 ≡ exhausted (suc called)
    unfolding next_item keep_iter record_call
    answers_none h = ap exhausted (counted h.route h.count)

  handle_all_of_run :
      (qs : List (Request B)) (router : MockRouter R E B) (items : List (Item R E)) {called : ℕ}
      → Serving key all items called router
      → AllFor url key qs
      → (handle_all url iter_response qs router).0 ≡ served items called (length qs)
  unfolding handle_all served
  handle_all_of_run [] router items h same = refl
  handle_all_of_run (q ∷ qs) router [] h (same, rest) =
      rw
        (
          handle-serves q router h same,
          answers_none q router h,
          handle_all_of_run qs _ [] (serves_none q router h) rest,
        )
        refl
  handle_all_of_run (q ∷ qs) router (item ∷ items) h (same, rest) =
      rw
        (
          handle-serves q router h same,
          answers_item q router item h,
          handle_all_of_run qs _ items (serves_item q router item h) rest,
        )
        refl

  -- A route that is registered under the key with an iterable side effect, and not yet called, answers
  -- any number of requests for the key with the items of the iterable, one each and in their order
  -- (raising those that are exceptions), and from then on with the AssertionError that counts the calls.
  pub handle_all-serves :
      (qs : List (Request B)) (router : MockRouter R E B) (route : MockRoute R E B)
      → get key router ≡ some route
      → route.side_effect ≡ some (iterable all)
      → route.side_effect_iter ≡ none
      → route.calls ≡ []
      → AllFor url key qs
      → (handle_all url iter_response qs router).0 ≡ served all 0 (length qs)
  handle_all-serves qs router route found effect fresh uncalled same =
      handle_all_of_run qs router all
        (record {
          route = route;
          found = found;
          effect = effect;
          left = rw fresh refl;
          count = rw uncalled refl;
        })
        same
