-- ===== src/Core/Context.antt =====
-- packages/core/src/novon/core/http/context.py: the request context.
-- A starlette request is what the code reads of it: its headers, by lower-case name as starlette
-- stores them, and the two attributes of its state. `uuid4()` draws from a supply of texts.
pub mod Laws
use platform_backend.Prelude.{
  ℕ, suc, String, Bool, true, false, Option, none, some, List, [], ◌∷◌, if◌then◌else◌, is_empty,
  string_eq,
}
use platform_backend.Dict.{Dict, get, put}

pub record State : Type 0 where
  pub request_id : Option String
  pub trace_id : Option String

pub record HttpRequest : Type 0 where
  pub headers : Dict String String
  pub state : State

pub record RequestContext : Type 0 where
  pub auth_token : Option String
  pub request_id : Option String
  pub trace_id : Option String
  pub user_id : Option String

-- The UUIDs to come: the one that is drawn next, and so on.
abbrev pub Supply : Type 0
Supply = ℕ → String

abbrev pub draw : Supply → String × Supply
draw supply = (supply 0, λ n. supply (suc n))

-- `x or str(uuid4())`: None and the empty text are replaced.
abbrev pub or_uuid : Option String → Supply → String × Supply
or_uuid none supply = draw supply
or_uuid (some s) supply = if is_empty s then draw supply else (s, supply)

unfoldable pub from_request : HttpRequest → Option String → Supply → RequestContext × Supply
from_request request user_id supply =
    let (request_id, supply') = or_uuid request.state.request_id supply in
    let (trace_id, supply'') = or_uuid request.state.trace_id supply' in
    (
      record {
        auth_token = get "authorization" request.headers;
        request_id = some request_id;
        trace_id = some trace_id;
        user_id = user_id;
      },
      supply'',
    )

-- `if value: headers[name] = value`
abbrev pub put_if : String → Option String → Dict String String → Dict String String
put_if name none headers = headers
put_if name (some value) headers = if is_empty value then headers else put name value headers

unfoldable pub to_headers : RequestContext → Dict String String
unfolding put
to_headers ctx = put_if "X-User-ID" ctx.user_id (
    put_if "X-Trace-ID" ctx.trace_id
      (put_if "X-Request-ID" ctx.request_id (put_if "Authorization" ctx.auth_token [])))

abbrev or_drawn : Option String → Supply → String × Supply
or_drawn none supply = draw supply
or_drawn (some s) supply = (s, supply)

-- The text returned, the context with its id set, and the rest of the supply.
unfoldable pub ensure_request_id : RequestContext → Supply → String × RequestContext × Supply
ensure_request_id ctx supply =
    let (request_id, supply') = or_drawn ctx.request_id supply in
    (request_id, record ctx { request_id = some request_id }, supply')
