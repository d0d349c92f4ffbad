-- ===== src/Core/Client/Retry.antt =====
-- How often a request is sent.
use platform_backend.Prelude.{
  ℕ, zero, suc, ◌+◌, ◌-◌, ◌≤◌, ◌<◌, String, ◌≡◌, ◌⊎◌, inl, inr, refl, ◌∙◌, arith, Bool, true, false,
  Option, Bool-cases, string_eq,
}
use platform_backend.Dict.{Dict, merge}
use platform_backend.Core.Typehints.{Annotation}
use platform_backend.Core.Client.{Returned, Raised, Result, ok, raised}
use platform_backend.Core.Client.Request.{
  Request, Network, Tenacity, ServiceClient, is_transient, attempt, request_once,
  request_with_retry, should_retry, request,
}

abbrev pub fails_transiently : {A : Type 0} → Result A → Bool
fails_transiently (ok a) = false
fails_transiently (raised e) = is_transient e

module _ {W J M : Type 0} (network : Network W J) (validate : Annotation → J → Option M)
    (tenacity : Tenacity W (Returned J M)) (c : ServiceClient) (req : Request J)
    (model : Option Annotation) where
  -- Attempt `n`, and what it leaves of the world.
  abbrev try : ℕ → W → Result (Returned J M) × W
  try = attempt network validate tenacity c req model

  -- The attempts from `n` in `w` up to `m` in `v` have failed transiently, each followed by a wait.
  pub data Fails (n : ℕ) (w : W) : ℕ → W → Type 0 where
    start : Fails n w n w
    again :
        {m : ℕ} {v : W}
        → Fails n w m v
        → fails_transiently (try m v).0 ≡ true
        → Fails n w (m + 1) (tenacity.sleep c.retry_min_delay c.retry_max_delay m (try m v).1)

  abbrev loop : ℕ → W → Result (Returned J M) × W
  loop =
      tenacity.retrying c.max_retries c.retry_min_delay c.retry_max_delay is_transient
        (attempt network validate tenacity c req model)

  -- The result is that of the last attempt `m`, and it was the last for a reason.
  abbrev Ends : ℕ → W → Type 0
  Ends n w =
      (m : ℕ) × (v : W) × Fails n w m v
      × (n ≤ m)
      × (m ≤ c.max_retries)
      × (loop n w ≡ try m v)
      × ((fails_transiently (try m v).0 ≡ false) ⊎ (m ≡ c.max_retries))

  Result-cases :
      {A : Type 0} (r : Result A) → ((a : A) × (r ≡ ok a)) ⊎ ((e : Raised) × (r ≡ raised e))
  Result-cases (ok a) = inl (a, refl)
  Result-cases (raised e) = inr (e, refl)

  -- One attempt before the rest.
  prepend :
      (n : ℕ) (w : W) {m : ℕ} {v : W}
      → fails_transiently (try n w).0 ≡ true
      → Fails (n + 1) (tenacity.sleep c.retry_min_delay c.retry_max_delay n (try n w).1) m v
      → Fails n w m v
  prepend n w h start = again start h
  prepend n w h (again f k) = again (prepend n w h f) k

  -- An attempt ends the loop unless its failure is transient.
  Ends-unless :
      (n : ℕ) (w : W)
      → n ≤ c.max_retries
      → ((x : Raised) → (try n w).0 ≡ raised x → is_transient x ≡ true → Ends n w)
      → Ends n w
  Ends-unless n w bound go_on = elim (Result-cases (try n w).0) [
    | inl (a, returned) ↦ (
      n,
      w,
      start,
      omega arith,
      bound,
      tenacity.returns _ _ _ _ _ n w a returned,
      inl (rw returned refl),
    )
    | inr (x, failed) ↦ elim (Bool-cases (is_transient x)) [
      | inl transient ↦ go_on x failed transient
      | inr final ↦ (
        n,
        w,
        start,
        omega arith,
        bound,
        tenacity.raises _ _ _ _ _ n w x failed (inl final),
        inl (rw failed final),
      )
    ]
  ]

  loop-Ends : (k n : ℕ) (w : W) → n + k ≡ c.max_retries → Ends n w
  loop-Ends zero n w e = Ends-unless n w (omega arith) λ x failed transient. (
    n,
    w,
    start,
    omega arith,
    omega arith,
    tenacity.raises _ _ _ _ _ n w x failed (inr (omega arith)),
    inr (omega arith),
  )
  loop-Ends (suc k) n w e = Ends-unless n w (omega arith) λ x failed transient.
      let w' = tenacity.sleep c.retry_min_delay c.retry_max_delay n (try n w).1 in
      let (m, v, fails, low, high, same, why) = loop-Ends k (n + 1) w' (omega arith) in
      (
        m,
        v,
        prepend n w (rw failed transient) fails,
        omega arith,
        high,
        tenacity.tries_again _ _ _ _ _ n w x failed transient (omega arith) ∙ same,
        why,
      )

  -- With at least one attempt allowed, the result of a request under retry is that of its attempt
  -- `m`, where `m` is at least 1 and at most `max_retries`: every attempt before it failed
  -- transiently, and it did not, or it was the last one allowed.
  pub request_with_retry-Ends :
      (w : W)
      → 0 < c.max_retries
      → (m : ℕ) × (v : W) × Fails 1 w m v
        × (1 ≤ m)
        × (m ≤ c.max_retries)
        × (request_with_retry network validate tenacity c req model w
            ≡ attempt network validate tenacity c req model m v)
        × ((fails_transiently (attempt network validate tenacity c req model m v).0 ≡ false)
            ⊎ (m ≡ c.max_retries))
  unfolding request_with_retry
  request_with_retry-Ends w h = loop-Ends (c.max_retries - 1) 1 w (omega arith)

-- A method is not idempotent if it is none of those that the client may repeat.
module _ {W J M : Type 0} (network : Network W J) (validate : Annotation → J → Option M)
    (tenacity : Tenacity W (Returned J M)) (c : ServiceClient) where
  -- Whatever the settings and the outcome, a POST or a PATCH is sent exactly once: the world that
  -- `request` leaves is the one that sending the request once leaves. Its headers are the given ones
  -- over the context's.
  pub request_sends_once :
      (method path : String) (ctx_headers : Dict String String) (model : Option Annotation)
      (json : Option J) (params : Option (Dict String J)) (headers : Dict String String) (w : W)
      → (method ≡ "POST") ⊎ (method ≡ "PATCH")
      → (request network validate tenacity c method path ctx_headers model json params headers w).1
        ≡ (network.send
            (record {
              method = method;
              path = path;
              headers = merge ctx_headers headers;
              json = json;
              params = params;
            })
            w).1
  unfolding request request_once should_retry
  request_sends_once method path ctx_headers model json params headers w (inl e) = rw e refl
  request_sends_once method path ctx_headers model json params headers w (inr e) = rw e refl
