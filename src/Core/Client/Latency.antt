-- ===== src/Core/Client/Latency.antt =====
-- How long a request can take: the attempts and the waits between them.
use native.Mathlib.Nat.{mul-le-mul_left}
use platform_backend.Prelude.{
  ℕ, ◌+◌, ◌-◌, ◌*◌, ◌≤◌, ◌<◌, String, ◌≡◌, refl, arith, Bool, true, false, Option, Bool-cases, inl,
  inr, ltb, string_eq, if◌then◌else◌,
}
use platform_backend.Dict.{Dict}
use platform_backend.Core.Typehints.{Annotation}
use platform_backend.Core.Client.{Returned}
use platform_backend.Core.Client.Request.{
  Request, Network, Tenacity, ServiceClient, attempt, request_once, request_with_retry,
  should_retry, request,
}
use platform_backend.Core.Client.Retry.{Fails, start, again, request_with_retry-Ends}

module _ {W J M : Type 0} (network : Network W J) (validate : Annotation → J → Option M)
    (tenacity : Tenacity W (Returned J M)) (c : ServiceClient) (clock : W → ℕ) (longest : ℕ)
    (ordered : c.retry_min_delay ≤ c.retry_max_delay)
    (sends : (req : Request J) (w : W) → clock (network.send req w).1 ≤ clock w + longest)
    (warns : (n of_n : ℕ) (req : Request J) (w : W) → clock (network.warn n of_n req w) ≤ clock w)
    (sleeps : (lo hi n : ℕ) (w : W)
      → lo ≤ hi
      → clock (tenacity.sleep lo hi n w) ≤ clock w + hi) where
  abbrev round : ℕ
  round = longest + c.retry_max_delay

  module _ (req : Request J) (model : Option Annotation) where
    once_takes :
        (w : W) → clock (request_once network validate tenacity c req model w).1 ≤ clock w + longest
    unfolding request_once
    once_takes w = sends req w

    attempt_takes :
        (n : ℕ) (w : W)
        → clock (attempt network validate tenacity c req model n w).1 ≤ clock w + longest
    unfolding attempt
    attempt_takes n w = elim (Bool-cases (ltb 1 n)) [
      | inl later ↦ rw later (
          let warned = warns n c.max_retries req w in
          let sent = once_takes (network.warn n c.max_retries req w) in omega arith)
      | inr first ↦ rw first (once_takes w)
    ]

    failures_take :
        (n : ℕ) (w : W) (m : ℕ) (v : W)
        → Fails network validate tenacity c req model n w m v
        → (k : ℕ) × (m ≡ n + k) × (clock v ≤ clock w + round * k)
    failures_take n w _ _ start = (0, omega arith, omega arith)
    failures_take n w _ _ (again {m} {v} fails transient) =
        let (k, same, took) = failures_take n w m v fails in
        let tried = attempt_takes m v in
        let waited =
          sleeps c.retry_min_delay c.retry_max_delay m
            (attempt network validate tenacity c req model m v).1 ordered in
        (k + 1, omega arith, omega arith)

    retries_take :
        (w : W)
        → 0 < c.max_retries
        → clock (request_with_retry network validate tenacity c req model w).1
          ≤ clock w + (longest + round * (c.max_retries - 1))
    retries_take w h =
        let (m, v, fails, low, high, same, why) =
          request_with_retry-Ends network validate tenacity c req model w h in
        let (k, steps, took) = failures_take 1 w m v fails in
        let few : k ≤ c.max_retries - 1 = omega arith in
        let rounds = mul-le-mul_left round few in
        let tried = attempt_takes m v in rw same (omega arith)

    request_or_retry_takes :
        (b : Bool) (w : W)
        → (b ≡ true → 0 < c.max_retries)
        → clock
            (if b
              then request_with_retry network validate tenacity c req model w
              else request_once network validate tenacity c req model w).1
          ≤ clock w + (longest + round * (c.max_retries - 1))
    request_or_retry_takes true w allowed = retries_take w (allowed refl)
    request_or_retry_takes false w allowed = let once = once_takes w in omega arith

  retry_allowed :
      (method : String) → should_retry network validate tenacity c method ≡ true → 0 < c.max_retries
  unfolding should_retry
  retry_allowed method h = ground arith

  -- If each sending takes at most `longest`, logging takes no time, and no wait is longer than the
  -- upper delay that it is given, then a request takes at most `longest`, and once more `longest` and
  -- the client's upper delay for each retry that its settings allow.
  pub request_takes :
      (method path : String) (ctx_headers : Dict String String) (model : Option Annotation)
      (json : Option J) (params : Option (Dict String J)) (headers : Dict String String) (w : W)
      → clock
          (request network validate tenacity c method path ctx_headers model json params headers
            w).1
        ≤ clock w + (longest + (longest + c.retry_max_delay) * (c.max_retries - 1))
  unfolding request
  request_takes method path ctx_headers model json params headers w =
      request_or_retry_takes _ model (should_retry network validate tenacity c method) w
        (retry_allowed method)
