-- ===== src/Tests/Edge.antt =====
-- The middleware and the request context at concrete inputs.
use platform_backend.Prelude.{ℕ, suc, String, ◌≡◌, refl, none, some, [], ◌∷◌, string_eq, false}
use platform_backend.Dict.{Dict, get}
use platform_backend.Core.Context.{
  HttpRequest, Supply, RequestContext, from_request, ensure_request_id,
}
use platform_backend.Core.Middleware.{HttpResponse, dispatch, fullmatch}
use platform_backend.Core.Middleware.Laws.{IsToken, dispatch_stamps, edge_ignores_other_headers}

abbrev pub uuids : Supply
uuids n = "0b5f6b2e-9d39-4c39-8f6e-1c0f5a3c2d11"

abbrev pub app : HttpRequest → ℕ → HttpResponse × ℕ
app request w = (record { status = 200; headers = [] }, suc w)

abbrev pub asking : Dict String String → HttpRequest
asking headers = record { headers = headers; state = record { request_id = none; trace_id = none } }

abbrev pub injecting : HttpRequest
injecting = asking (("x-request-id", "id;rm -rf") ∷ ("x-trace-id", "t1") ∷ [])

abbrev plain : HttpRequest
plain = asking (("x-request-id", "id;rm -rf") ∷ ("x-user-id", "root") ∷ [])

pub uuids-IsToken : (n : ℕ) → IsToken (uuids n)
unfolding fullmatch
uuids-IsToken n = refl

replaced_id : (dispatch false app injecting uuids 0).warning ≡ some "id;rm -rf"
unfolding dispatch get
replaced_id = refl

dispatch_stamps_example :
    (request_id : String) × (trace_id : String) × ((dispatch false app injecting uuids
        0).forwarded.state
      ≡ record { request_id = some request_id; trace_id = some trace_id })
    × IsToken request_id
    × IsToken trace_id
    × (get "x-request-id" (dispatch false app injecting uuids 0).response.headers ≡ some request_id)
    × ((dispatch false app injecting uuids 0).forwarded.headers ≡ injecting.headers)
dispatch_stamps_example = dispatch_stamps false app injecting uuids 0 uuids-IsToken

same_auth : get "authorization" injecting.headers ≡ get "authorization" plain.headers
unfolding get
same_auth = refl

same_id : get "x-request-id" injecting.headers ≡ get "x-request-id" plain.headers
unfolding get
same_id = refl

edge_ignores_other_headers_example :
    ((from_request
        (dispatch false app injecting uuids 0).forwarded
        (some "ann")
        (dispatch false app injecting uuids 0).supply).0
      ≡ (from_request
          (dispatch false app plain uuids 0).forwarded
          (some "ann")
          (dispatch false app plain uuids 0).supply).0)
    × ((from_request
          (dispatch false app injecting uuids 0).forwarded
          (some "ann")
          (dispatch false app injecting uuids 0).supply).0.user_id
        ≡ some "ann")
edge_ignores_other_headers_example =
    edge_ignores_other_headers app injecting plain uuids 0 (some "ann") same_auth same_id

abbrev partly_set : RequestContext
partly_set = record {
  auth_token = none;
  request_id = some "r1";
  trace_id = some "";
  user_id = some "ann";
}

generated_once : (ensure_request_id (record partly_set { request_id = none }) uuids).0 ≡ uuids 0
unfolding ensure_request_id
generated_once = refl
