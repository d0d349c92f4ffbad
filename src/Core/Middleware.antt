-- ===== src/Core/Middleware.antt =====
-- packages/core/src/novon/core/middleware.py: request and trace IDs at a service's edge.
-- `call_next` is the rest of the application, an argument that returns; an exception of it passes
-- through `dispatch` and reaches no code here.
pub mod Laws
pub mod Warnings
use platform_backend.Prelude.{
  ℕ, suc, String, Char, code, Bool, true, false, not, ◌&&◌, ◌||◌, Option, none, some, List, [], ◌∷◌,
  if◌then◌else◌, leb, ◌==◌, nat_eq, string_eq, prefix, is_empty,
}
use platform_backend.Dict.{Dict, get, put}
use platform_backend.Core.Context.{State, HttpRequest, Supply, draw}

in_text : ℕ → String → Bool
in_text n String.[] = false
in_text n (String.◌∷◌ c s) = n == code c || in_text n s

-- A member of the class of `_TOKEN_PATTERN`.
unfoldable pub is_token_char : Char → Bool
unfolding in_text
is_token_char c =
    let n = code c in
    in_text n "!#$%&'*+.=:^_`|~-"
    || ((leb b'A' n && leb n b'Z') || ((leb b'a' n && leb n b'z') || (leb b'0' n && leb n b'9')))

unfoldable pub all_token_chars : String → Bool
unfolding is_token_char
all_token_chars String.[] = true
all_token_chars (String.◌∷◌ c s) = is_token_char c && all_token_chars s

abbrev pub text_length : String → ℕ
text_length String.[] = 0
text_length (String.◌∷◌ c s) = suc (text_length s)

-- `_TOKEN_PATTERN.fullmatch(raw)`
unfoldable pub fullmatch : String → Bool
unfolding all_token_chars
fullmatch raw = all_token_chars raw && (leb 1 (text_length raw) && leb (text_length raw) 512)

unfoldable pub sanitize_header_token : Option String → Supply → String × Supply
unfolding fullmatch
sanitize_header_token none supply = draw supply
sanitize_header_token (some raw) supply =
    if not (is_empty raw) && fullmatch raw then (raw, supply) else draw supply

pub record HttpResponse : Type 0 where
  pub status : ℕ
  pub headers : Dict String String

-- The argument of `logger.warning` where an inbound id is replaced.
abbrev pub replaced : Option String → String → Option String
replaced none request_id = none
replaced (some raw) request_id = if request_id == raw then none else some (prefix 64 raw)

pub record Dispatched (W : Type 0) : Type 0 where
  pub response : HttpResponse
  pub forwarded : HttpRequest
  pub warning : Option String
  pub supply : Supply
  pub world : W

abbrev pub trace_of : Bool → Option String → Supply → String × Supply
trace_of trust raw supply = if trust then sanitize_header_token raw supply else draw supply

-- `forwarded` is the request with its state set, as `call_next` receives it.
unfoldable pub dispatch :
    {W : Type 0}
    → Bool
    → (HttpRequest → W → HttpResponse × W)
    → HttpRequest
    → Supply
    → W
    → Dispatched W
unfolding sanitize_header_token
dispatch trust_inbound_trace call_next request supply w =
    let raw_id = get "x-request-id" request.headers in
    let (request_id, supply') = sanitize_header_token raw_id supply in
    let (trace_id, supply'') =
      trace_of trust_inbound_trace (get "x-trace-id" request.headers) supply' in
    let forwarded : HttpRequest = record request {
      state = record { request_id = some request_id; trace_id = some trace_id };
    } in
    let (response, w') = call_next forwarded w in
    record {
      response = record response { headers = put "x-request-id" request_id response.headers };
      forwarded = forwarded;
      warning = replaced raw_id request_id;
      supply = supply'';
      world = w';
    }
