-- ===== src/Core/Client.antt =====
-- packages/core/src/novon/core/http/base_client.py: one call of a downstream service.
-- httpx2, pydantic and tenacity are not part of the repository. A `Response` holds what the client
-- reads of an httpx2 response, and `Outcome` what the transport gives; `send` of a `Network` is the
-- transport, `validate` is `TypeAdapter(...).validate_python`. `W` is the state of the world outside.
-- Delays are milliseconds.
pub mod Request
pub mod Parsing
pub mod Retry
pub mod Latency
pub mod Final
pub mod Recovery
pub mod Init
use platform_backend.Prelude.{
  ℕ, String, ◌&◌, ◌≡◌, ◌⊎◌, ◌+◌, ◌≤◌, ◌<◌, Bool, true, false, not, ◌&&◌, ◌||◌, Option, none, some,
  List, [], ◌∷◌, ltb, leb, ◌==◌, nat_eq, string_eq, if◌then◌else◌, contains, str_of_nat, upper,
}
use platform_backend.Dict.{Dict, merge}
use platform_backend.Core.Errors.{
  ErrorClass, timeout, unavailable, ServiceCallError, service_call_error, service_timeout_error,
  service_unavailable_error, service_response_error, service_bad_request_error,
  service_not_found_error,
}
use platform_backend.Core.Typehints.{
  Annotation, none_type, class_type, list_type, union, unwrap_optional,
}

-- `json` is `none` where `response.json()` raises, and `raises` says whether `raise_for_status()`
-- does.
pub record Response (J : Type 0) : Type 0 where
  pub status_code : ℕ
  pub text : String
  pub content : List ℕ
  pub json : Option J
  pub raises : Bool

-- `httpx2.TransportError` with its text; TimeoutException is a subclass of it.
pub data TransportError : Type 0 where
  timeout_exception : String → TransportError
  other_error : String → TransportError

-- `threw` is any other exception of httpx2's `request`, with its text: a DecodingError for a body that
-- does not decompress, an InvalidURL, and so on.
pub data Outcome (J : Type 0) : Type 0 where
  answered : Response J → Outcome J
  broken : TransportError → Outcome J
  threw : String → Outcome J

-- What `request` returns: the raw response, None, or a parsed model.
pub data Returned (J M : Type 0) : Type 0 where
  raw : Response J → Returned J M
  nothing : Returned J M
  parsed : M → Returned J M

-- `stop_iteration` is the exception of `unwrap_optional` on a union without a member, `escaped` one of
-- httpx2 that `_request_once` does not catch.
pub data Raised : Type 0 where
  service_error : ServiceCallError → Raised
  unreadable : Raised
  stop_iteration : Raised
  escaped : String → Raised

pub data Result (A : Type 0) : Type 0 where
  ok : A → Result A
  raised : Raised → Result A

abbrev pub idempotent_methods : List String
idempotent_methods = "GET" ∷ "HEAD" ∷ "OPTIONS" ∷ "PUT" ∷ "DELETE" ∷ []

abbrev returned_status : String → ℕ → String
returned_status service_name status = service_name & (" returned " & str_of_nat status)

unfoldable pub map_http_error : ℕ → String → String → ServiceCallError
map_http_error status body service_name =
    if status == 404
    then service_not_found_error ("Resource not found from " & service_name) service_name
        (some body)
    else if leb 400 status && ltb status 500
    then service_bad_request_error (returned_status service_name status) service_name status
        (some body)
    else if leb 500 status
    then service_unavailable_error (returned_status service_name status) service_name
    else service_call_error (returned_status service_name status) service_name (some status)
        (some body)

unfoldable pub map_transport_error : TransportError → String → ServiceCallError
map_transport_error (timeout_exception text) service_name =
    service_timeout_error ("Call to " & (service_name & " timed out")) service_name
map_transport_error (other_error text) service_name =
    service_unavailable_error ("Cannot reach " & (service_name & (": " & text))) service_name

abbrev pub is_empty_list : List ℕ → Bool
is_empty_list [] = true
is_empty_list (b ∷ bs) = false

abbrev pub of_validated : {J M : Type 0} → Option M → Result (Returned J M)
of_validated none = raised unreadable
of_validated (some m) = ok (parsed m)

module _ {J M : Type 0} (validate : Annotation → J → Option M) where
  abbrev pub of_json : Annotation → Option J → Result (Returned J M)
  of_json model none = raised unreadable
  of_json model (some j) = of_validated (validate model j)

  abbrev pub of_unwrapped :
      Annotation → Response J → Option (Annotation × Bool) → Result (Returned J M)
  of_unwrapped model r none = raised stop_iteration
  of_unwrapped model r (some (inner, optional)) =
      if optional && is_empty_list r.content then ok nothing else of_json model r.json

  abbrev pub of_model : Response J → Annotation → Result (Returned J M)
  of_model r none_type = ok nothing
  of_model r model = of_unwrapped model r (unwrap_optional model)

  unfoldable pub parse_response : Response J → Option Annotation → Result (Returned J M)
  parse_response r none = ok (raw r)
  parse_response r (some model) = of_model r model
