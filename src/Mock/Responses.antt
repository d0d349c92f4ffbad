-- ===== src/Mock/Responses.antt =====
-- packages/test-utils/src/novon_test_utils, helpers.py and plugin.py: the responses and the fixture of
-- the tests. `httpx2.Response(status, json=...)` is an argument.
use platform_backend.Prelude.{ℕ, String, Option, none, some, [], ◌∷◌}
use platform_backend.Dict.{Dict}
use platform_backend.Mock.{MockRouter}

-- The JSON bodies of these helpers: any data, or an object of texts.
pub data Body (J : Type 0) : Type 0 where
  payload : J → Body J
  object : Dict String String → Body J

abbrev pub status_or : ℕ → Option ℕ → ℕ
status_or otherwise none = otherwise
status_or otherwise (some status) = status

module _ {R J : Type 0} (response : ℕ → Body J → R) where
  unfoldable pub ok_response : J → Option ℕ → R
  ok_response json status = response (status_or 200 status) (payload json)

  unfoldable pub error_response : String → Option ℕ → R
  error_response detail status = response (status_or 404 status) (object (("detail", detail) ∷ []))

-- The router of the fixture, which has no route.
abbrev pub mock_router : {R E B : Type 0} → MockRouter R E B
mock_router = []
