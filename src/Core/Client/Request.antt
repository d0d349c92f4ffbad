-- ===== src/Core/Client/Request.antt =====
-- packages/core/src/novon/core/http/base_client.py: one attempt of a request, and the retries.
-- tenacity is an argument: `Tenacity` states what its documentation promises of `AsyncRetrying`.
use platform_backend.Prelude.{
  ℕ, String, ◌&◌, ◌≡◌, ◌⊎◌, ◌+◌, ◌≤◌, ◌<◌, Bool, true, false, ◌&&◌, Option, some, ltb, nat_eq,
  string_eq, if◌then◌else◌, contains, upper,
}
use platform_backend.Dict.{Dict, merge}
use platform_backend.Core.Errors.{ErrorClass, timeout, unavailable, service_response_error}
use platform_backend.Core.Typehints.{Annotation}
use platform_backend.Core.Client.{
  Response, Outcome, answered, broken, threw, Returned, Raised, service_error, unreadable,
  stop_iteration, escaped, Result, ok, raised, idempotent_methods, map_http_error,
  map_transport_error, parse_response,
}

pub record Request (J : Type 0) : Type 0 where
  pub method : String
  pub path : String
  pub headers : Dict String String
  pub json : Option J
  pub params : Option (Dict String J)

-- The transport, and `logger.warning` of a retry.
pub record Network (W J : Type 0) : Type 0 where
  pub send : Request J → W → Outcome J × W
  pub warn : ℕ → ℕ → Request J → W → W

pub record ServiceClient : Type 0 where
  pub service_name : String
  pub max_retries : ℕ
  pub retry_min_delay : ℕ
  pub retry_max_delay : ℕ

-- tenacity's `AsyncRetrying(stop=stop_after_attempt(stop), wait=wait_exponential(..., lo, hi),
-- retry=retry_if_exception(retry), reraise=True)` over a body that is told the number of its attempt,
-- from attempt `n` on. `sleep` is what a wait does to the world.
pub record Tenacity (W A : Type 0) : Type 0 where
  pub sleep : (lo hi n : ℕ) → W → W
  pub retrying : (stop lo hi : ℕ) → (Raised → Bool) → (ℕ → W → Result A × W) → ℕ → W → Result A × W
  pub returns :
      (stop lo hi : ℕ) (retry : Raised → Bool) (body : ℕ → W → Result A × W) (n : ℕ) (w : W) (a : A)
      → (body n w).0 ≡ ok a
      → retrying stop lo hi retry body n w ≡ body n w
  pub raises :
      (stop lo hi : ℕ) (retry : Raised → Bool) (body : ℕ → W → Result A × W) (n : ℕ) (w : W)
      (e : Raised)
      → (body n w).0 ≡ raised e
      → (retry e ≡ false) ⊎ (stop ≤ n)
      → retrying stop lo hi retry body n w ≡ body n w
  pub tries_again :
      (stop lo hi : ℕ) (retry : Raised → Bool) (body : ℕ → W → Result A × W) (n : ℕ) (w : W)
      (e : Raised)
      → (body n w).0 ≡ raised e
      → retry e ≡ true
      → n < stop
      → retrying stop lo hi retry body n w
        ≡ retrying stop lo hi retry body (n + 1) (sleep lo hi n (body n w).1)

-- `retry_if_exception_type((ServiceUnavailableError, ServiceTimeoutError))`
abbrev pub transient_class : ErrorClass → Bool
transient_class unavailable = true
transient_class timeout = true
transient_class _ = false

unfoldable pub is_transient : Raised → Bool
is_transient (service_error e) = transient_class e.error_class
is_transient unreadable = false
is_transient stop_iteration = false
is_transient (escaped text) = false

-- The handler of the last `try` of `_request_once`.
abbrev pub catch_unreadable : {J A : Type 0} → String → Response J → Result A → Result A
catch_unreadable service_name r (ok a) = ok a
catch_unreadable service_name r (raised unreadable) = raised (
    service_error (
      service_response_error (service_name & " returned an unreadable response body") service_name
        (some r.text)))
catch_unreadable service_name r (raised e) = raised e

module _ {J M : Type 0} (validate : Annotation → J → Option M) (service_name : String) where
  unfoldable pub handle_outcome : Option Annotation → Outcome J → Result (Returned J M)
  unfolding map_transport_error
  handle_outcome model (broken e) = raised (service_error (map_transport_error e service_name))
  handle_outcome model (threw text) = raised (escaped text)
  handle_outcome model (answered r) =
      if r.raises
      then raised (service_error (map_http_error r.status_code r.text service_name))
      else catch_unreadable service_name r (parse_response validate r model)

module _ {W J M : Type 0} (network : Network W J) (validate : Annotation → J → Option M)
    (tenacity : Tenacity W (Returned J M)) (c : ServiceClient) where
  unfoldable pub request_once : Request J → Option Annotation → W → Result (Returned J M) × W
  unfolding handle_outcome
  request_once req model w =
      let (outcome, w') = network.send req w in
      (handle_outcome validate c.service_name model outcome, w')

  -- One round of the retry loop.
  unfoldable pub attempt : Request J → Option Annotation → ℕ → W → Result (Returned J M) × W
  attempt req model n w =
      request_once req model (if ltb 1 n then network.warn n c.max_retries req w else w)

  unfoldable pub request_with_retry : Request J → Option Annotation → W → Result (Returned J M) × W
  request_with_retry req model =
      tenacity.retrying c.max_retries c.retry_min_delay c.retry_max_delay is_transient
        (attempt req model) 1

  unfoldable pub should_retry : String → Bool
  unfolding upper
  should_retry method = contains (upper method) idempotent_methods && ltb 0 c.max_retries

  -- `{**ctx.to_headers(), **headers}`, with the context's headers given.
  unfoldable pub request :
      String
      → String
      → Dict String String
      → Option Annotation
      → Option J
      → Option (Dict String J)
      → Dict String String
      → W
      → Result (Returned J M) × W
  unfolding merge
  request method path ctx_headers model json params headers w =
      let req : Request J = record {
        method = method;
        path = path;
        headers = merge ctx_headers headers;
        json = json;
        params = params;
      } in
      if should_retry method then request_with_retry req model w else request_once req model w
