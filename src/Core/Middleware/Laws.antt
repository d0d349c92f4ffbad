-- ===== src/Core/Middleware/Laws.antt =====
-- What the middleware lets through.
use platform_backend.Prelude.{
  ℕ, suc, String, ◌≡◌, ◌⊎◌, refl, inl, inr, Bool, true, false, not, ◌&&◌, Option, none, some,
  string_eq, is_empty, beq_self, and_right, Bool-cases,
}
use platform_backend.Dict.{get}
use platform_backend.Dict.Laws.{get-put_self}
use platform_backend.Core.Context.{HttpRequest, Supply, from_request}
use platform_backend.Core.Middleware.{
  fullmatch, sanitize_header_token, HttpResponse, trace_of, Dispatched, dispatch,
}

-- A safe token: one to 512 characters, each of the pattern's class.
abbrev pub IsToken : String → Type 0
IsToken s = fullmatch s ≡ true

pub token-ne-empty : (s : String) → IsToken s → is_empty s ≡ false
unfolding fullmatch
token-ne-empty String.[] h = cc
token-ne-empty (String.◌∷◌ c s) h = refl

-- A valid token is kept, and draws nothing from the supply.
pub sanitize_of_token :
    (raw : String) (supply : Supply)
    → IsToken raw
    → sanitize_header_token (some raw) supply ≡ (raw, supply)
unfolding sanitize_header_token
sanitize_of_token raw supply h = rw (token-ne-empty raw h, h) refl

-- If the next UUID is a token, then so is whatever the sanitizer returns.
pub sanitize-IsToken :
    (raw : Option String) (supply : Supply)
    → IsToken (supply 0)
    → IsToken (sanitize_header_token raw supply).0
unfolding sanitize_header_token
sanitize-IsToken none supply h = h
sanitize-IsToken (some raw) supply h = elim (Bool-cases (not (is_empty raw) && fullmatch raw)) [
  | inl good ↦ rw good (and_right _ _ good)
  | inr bad ↦ rw bad h
]

-- At most one UUID is drawn for the request ID, so the next one is the first or the second.
pub sanitize_draws :
    (raw : Option String) (supply : Supply)
    → ((sanitize_header_token raw supply).1 0 ≡ supply 0)
      ⊎ ((sanitize_header_token raw supply).1 0 ≡ supply 1)
unfolding sanitize_header_token
sanitize_draws none supply = inr refl
sanitize_draws (some raw) supply = elim (Bool-cases (not (is_empty raw) && fullmatch raw)) [
  | inl good ↦ rw good (inl refl)
  | inr bad ↦ rw bad (inr refl)
]

draws_on :
    (raw : Option String) (supply : Supply)
    → ((n : ℕ) → IsToken (supply n))
    → (n : ℕ) → IsToken ((sanitize_header_token raw supply).1 n)
unfolding sanitize_header_token
draws_on none supply h n = h (suc n)
draws_on (some raw) supply h n = elim (Bool-cases (not (is_empty raw) && fullmatch raw)) [
  | inl good ↦ rw good (h n)
  | inr bad ↦ rw bad (h (suc n))
]

trace_of-IsToken :
    (trust : Bool) (raw : Option String) (supply : Supply)
    → ((n : ℕ) → IsToken (supply n))
    → IsToken (trace_of trust raw supply).0
trace_of-IsToken true raw supply h = sanitize-IsToken raw supply (h 0)
trace_of-IsToken false raw supply h = h 0

module _ {W : Type 0} (trust : Bool) (call_next : HttpRequest → W → HttpResponse × W)
    (request : HttpRequest) (supply : Supply) (w : W) where
  abbrev pub done : Dispatched W
  done = dispatch trust call_next request supply w

  -- The response carries the request ID of the forwarded request.
  pub response_request_id :
      get "x-request-id" done.response.headers ≡ done.forwarded.state.request_id
  unfolding dispatch
  response_request_id = get-put_self "x-request-id" _ _

  -- If every UUID to come is a token, the request that the application sees has a request ID and a
  -- trace ID, both safe tokens, whatever the inbound headers hold; the response carries that request
  -- ID, and the request's own headers are unchanged.
  pub dispatch_stamps :
      ((n : ℕ) → IsToken (supply n))
      → (request_id : String) × (trace_id : String) × (done.forwarded.state
          ≡ record { request_id = some request_id; trace_id = some trace_id })
        × IsToken request_id
        × IsToken trace_id
        × (get "x-request-id" done.response.headers ≡ some request_id)
        × (done.forwarded.headers ≡ request.headers)
  unfolding dispatch
  dispatch_stamps h = (
    (sanitize_header_token (get "x-request-id" request.headers) supply).0,
    _,
    refl,
    sanitize-IsToken (get "x-request-id" request.headers) supply (h 0),
    trace_of-IsToken trust (get "x-trace-id" request.headers) _
        (draws_on (get "x-request-id" request.headers) supply h),
    get-put_self "x-request-id" _ _,
    refl,
  )

  -- On a service that trusts inbound traces, valid inbound IDs are continued: the request that the
  -- application sees has both of them, no UUID is drawn and nothing is logged.
  pub dispatch_continues :
      (request_id trace_id : String)
      → trust ≡ true
      → IsToken request_id
      → IsToken trace_id
      → get "x-request-id" request.headers ≡ some request_id
      → get "x-trace-id" request.headers ≡ some trace_id
      → (done.forwarded.state ≡ record { request_id = some request_id; trace_id = some trace_id })
        × (done.supply ≡ supply)
        × (done.warning ≡ none)
  unfolding dispatch
  dispatch_continues request_id trace_id trusted good_id good_trace has_id has_trace =
      rw
        (
          trusted,
          has_id,
          has_trace,
          sanitize_of_token request_id supply good_id,
          sanitize_of_token trace_id supply good_trace,
          beq_self request_id,
        )
        (refl, refl, refl)

-- On the external edge two requests that agree on `Authorization` and `X-Request-ID` give the same
-- context, whatever their other headers say, for the same identity and the same UUIDs to come; the
-- context's user is that identity.
pub edge_ignores_other_headers :
    {W : Type 0} (call_next : HttpRequest → W → HttpResponse × W) (a b : HttpRequest)
    (supply : Supply) (w : W) (user_id : Option String)
    → get "authorization" a.headers ≡ get "authorization" b.headers
    → get "x-request-id" a.headers ≡ get "x-request-id" b.headers
    → ((from_request
          (dispatch false call_next a supply w).forwarded
          user_id
          (dispatch false call_next a supply w).supply).0
        ≡ (from_request
            (dispatch false call_next b supply w).forwarded
            user_id
            (dispatch false call_next b supply w).supply).0)
      × ((from_request
            (dispatch false call_next a supply w).forwarded
            user_id
            (dispatch false call_next a supply w).supply).0.user_id
          ≡ user_id)
unfolding dispatch from_request
edge_ignores_other_headers call_next a b supply w user_id auth ids = (rw (auth, ids) refl, refl)
