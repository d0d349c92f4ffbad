-- ===== src/Tests/Mocks.antt =====
-- The mock router with one route, whose side effect first fails and then answers. A URL is a path of
-- one host here, a response a text and an exception a number.
use platform_backend.Prelude.{
  ◌+◌, ◌++◌, ◌||◌, length, ℕ, String, ◌≡◌, refl, Option, none, some, List, [], ◌∷◌, upper,
}
use platform_backend.Dict.{get, put}
use platform_backend.Dict.Laws.{get-put_self}
use platform_backend.Mock.{
  UrlParts, RouteKey, key_eq, route_key, Request, Item, response, base_exception, iterable,
  MockRoute, MockRouter, handle_all,
}
use platform_backend.Mock.Verbs.{is_called, last, called, call_count}
use platform_backend.Mock.Counts.{matching, later_or, counts-handle_all}
use platform_backend.Mock.Order.{served, handle_all-serves}

abbrev pub url_of : String → UrlParts
url_of text = record { scheme = "https"; host = "uc.test"; port = none; path = text }

abbrev no_iter : String → Option (List (Item String ℕ))
no_iter r = none

abbrev pub users_key : RouteKey
users_key = record { method = "GET"; parts = url_of "/users/1" }

abbrev items : List (Item String ℕ)
items = base_exception 503 ∷ response "alice" ∷ []

abbrev users_route : MockRoute String ℕ ℕ
users_route = record {
  return_value = none;
  side_effect = some (iterable items);
  calls = [];
  side_effect_iter = none;
}

abbrev router : MockRouter String ℕ ℕ
router = (users_key, users_route) ∷ []

abbrev asked : ℕ → Request ℕ
asked body = record { method = "get"; url = "/users/1"; body = body }

abbrev three : List (Request ℕ)
three = asked 1 ∷ asked 2 ∷ asked 3 ∷ []

asked_key : (n : ℕ) → route_key url_of (asked n).method (asked n).url ≡ users_key
unfolding route_key upper
asked_key n = refl

router_found : get users_key router ≡ some users_route
router_found = unfold put in get-put_self users_key users_route []

handle_all-serves_example : (handle_all url_of no_iter three router).0 ≡ served items 0 3
handle_all-serves_example =
    handle_all-serves url_of no_iter users_key items three router users_route router_found refl refl
      refl (asked_key 1, (asked_key 2, (asked_key 3, tt)))

counts-handle_all_example :
    (route' : MockRoute String ℕ ℕ) × (get users_key (handle_all url_of no_iter three router).1
      ≡ some route')
    × (route'.calls ≡ users_route.calls ++ matching url_of users_key three)
    × (call_count route' ≡ call_count users_route + length (matching url_of users_key three))
    × (called route' ≡ (called users_route || is_called (matching url_of users_key three)))
    × (last route'.calls
        ≡ later_or (last (matching url_of users_key three)) (last users_route.calls))
counts-handle_all_example =
    counts-handle_all url_of no_iter three router users_key users_route router_found
