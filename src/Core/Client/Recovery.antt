-- ===== src/Core/Client/Recovery.antt =====
-- packages/core/src/novon/core/http/base_client.py: a request that fails for a while and then does not.
use platform_backend.Prelude.{
  ℕ, ◌+◌, ◌≤◌, ◌<◌, ◌≡◌, refl, ◌∙◌, arith, true, false, Option, ◌⊎◌, inl,
}
use platform_backend.Core.Typehints.{Annotation}
use platform_backend.Core.Client.{Returned, Result, ok, raised}
use platform_backend.Core.Client.Request.{
  Request, Network, Tenacity, ServiceClient, attempt, request_with_retry, is_transient,
}
use platform_backend.Core.Client.Retry.{Fails, start, again, fails_transiently}

module _ {W J M : Type 0} (network : Network W J) (validate : Annotation → J → Option M)
    (tenacity : Tenacity W (Returned J M)) (c : ServiceClient) (req : Request J)
    (model : Option Annotation) where
  abbrev pub try : ℕ → W → Result (Returned J M) × W
  try = attempt network validate tenacity c req model

  abbrev pub loop : ℕ → W → Result (Returned J M) × W
  loop =
      tenacity.retrying c.max_retries c.retry_min_delay c.retry_max_delay is_transient
        (attempt network validate tenacity c req model)

  pub goes_on :
      (m : ℕ) (v : W) (r : Result (Returned J M))
      → (try m v).0 ≡ r
      → fails_transiently r ≡ true
      → m < c.max_retries
      → loop m v ≡ loop (m + 1) (tenacity.sleep c.retry_min_delay c.retry_max_delay m (try m v).1)
  goes_on m v (ok a) same failed lt = cc
  goes_on m v (raised e) same failed lt =
      tenacity.tries_again _ _ _ is_transient (attempt network validate tenacity c req model) m v e
        same failed lt

  pub stops :
      (m : ℕ) (v : W) (r : Result (Returned J M))
      → (try m v).0 ≡ r
      → (fails_transiently r ≡ false) ⊎ (c.max_retries ≤ m)
      → loop m v ≡ try m v
  stops m v (ok a) same final =
      tenacity.returns _ _ _ is_transient (attempt network validate tenacity c req model) m v a same
  stops m v (raised e) same final =
      tenacity.raises _ _ _ is_transient (attempt network validate tenacity c req model) m v e same
        final

  loop_of_Fails :
      (w : W) {m : ℕ} {v : W}
      → Fails network validate tenacity c req model 1 w m v
      → m ≤ c.max_retries
      → loop 1 w ≡ loop m v
  loop_of_Fails w start le = refl
  loop_of_Fails w (again {m} {v} before failed) le =
      loop_of_Fails w before (omega arith) ∙ goes_on m v (try m v).0 refl failed (omega arith)

  -- If the attempts before `m` fail transiently, `m` is at most `max_retries`, and attempt `m` does not
  -- fail transiently, then the request under retry gives what that attempt gives.
  pub request_with_retry-recovers :
      (w : W) {m : ℕ} {v : W}
      → Fails network validate tenacity c req model 1 w m v
      → m ≤ c.max_retries
      → fails_transiently (attempt network validate tenacity c req model m v).0 ≡ false
      → request_with_retry network validate tenacity c req model w
        ≡ attempt network validate tenacity c req model m v
  unfolding request_with_retry
  request_with_retry-recovers w {m} {v} before le final =
      loop_of_Fails w before le ∙ stops m v (try m v).0 refl (inl final)
