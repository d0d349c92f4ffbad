-- ===== src/Tests/Hops.antt =====
-- One request over two applications, at concrete inputs.
use platform_backend.Prelude.{
  ◌⊎◌, ◌≤◌, true, false, prefix, ℕ, String, ◌≡◌, ◌⊎◌, inl, refl, Bool, false, none, some, [], ◌∷◌,
  string_eq,
}
use platform_backend.Dict.{get}
use platform_backend.Core.Context.{HttpRequest, from_request, to_headers}
use platform_backend.Core.AppFactory.{App, serve}
use platform_backend.Core.Middleware.{HttpResponse, dispatch, fullmatch, text_length}
use platform_backend.Core.Middleware.Warnings.{dispatch_warns}
use platform_backend.Apps.{create_uc_app, create_bff_app}
use platform_backend.Apps.Hops.{Delivers, hops_join}
use platform_backend.Tests.Edge.{uuids, injecting, app, uuids-IsToken}

dispatch_warns_example :
    ((get "x-request-id" injecting.headers ≡ none)
      × ((dispatch false app injecting uuids 0).warning ≡ none)
      × ((dispatch false app injecting uuids 0).forwarded.state.request_id ≡ some (uuids 0)))
    ⊎ ((raw : String) × (get "x-request-id" injecting.headers ≡ some raw)
        × (((fullmatch raw ≡ true)
              × ((dispatch false app injecting uuids 0).warning ≡ none)
              × ((dispatch false app injecting uuids 0).forwarded.state.request_id ≡ some raw))
            ⊎ ((fullmatch raw ≡ false)
                × ((dispatch false app injecting uuids 0).warning ≡ some (prefix 64 raw))
                × (text_length (prefix 64 raw) ≤ 64)
                × ((dispatch false app injecting uuids 0).forwarded.state.request_id
                    ≡ some (uuids 0)))))
dispatch_warns_example = dispatch_warns false app injecting uuids 0 (uuids-IsToken 0)

abbrev settings : String
settings = "settings"

abbrev run : ℕ → Bool → HttpRequest → ℕ → HttpResponse × ℕ
run router handlers request w = app request w

abbrev name_of : String → String
name_of s = s

abbrev forwarded : HttpRequest
forwarded = record {
  headers =
      ("x-request-id", "0b5f6b2e-9d39-4c39-8f6e-1c0f5a3c2d11")
      ∷ ("x-trace-id", "0b5f6b2e-9d39-4c39-8f6e-1c0f5a3c2d11")
      ∷ ("x-user-id", "anonymous")
      ∷ [];
  state = record { request_id = none; trace_id = none };
}

uc : App String ℕ
unfolding create_uc_app
uc = create_uc_app name_of settings 2 none

edge_app : App String ℕ
unfolding create_bff_app
edge_app = create_bff_app name_of settings 1 none

delivered :
    Delivers
      (to_headers
        (from_request
          (serve run edge_app injecting uuids 0).forwarded
          (some "anonymous")
          (serve run edge_app injecting uuids 0).supply).0)
      forwarded
unfolding edge_app create_bff_app serve dispatch fullmatch from_request to_headers get
delivered = record { request_id = refl; trace_id = refl }

hops_join_example :
    ((serve run uc forwarded uuids 0).forwarded.state
      ≡ (serve run edge_app injecting uuids 0).forwarded.state)
    × ((serve run uc forwarded uuids 0).supply ≡ uuids)
    × ((serve run uc forwarded uuids 0).warning ≡ none)
    × (get "x-request-id" (serve run uc forwarded uuids 0).response.headers
        ≡ get "x-request-id" (serve run edge_app injecting uuids 0).response.headers)
    × ((serve run edge_app injecting uuids 0).forwarded.state.trace_id ≡ some (uuids 0)
        ⊎ ((serve run edge_app injecting uuids 0).forwarded.state.trace_id ≡ some (uuids 1)))
unfolding uc edge_app
hops_join_example =
    hops_join name_of settings 1 none run name_of settings 2 none uc run injecting forwarded uuids
      uuids 0 0 (some "anonymous") (inl refl) uuids-IsToken delivered
