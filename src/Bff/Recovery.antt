-- ===== src/Bff/Recovery.antt =====
-- apps/bff/src/novon/bff/api/routes.py: a read through the BFF while UC fails for a while.
use mathlib.Core.Path.{subst}
use platform_backend.Prelude.{
  ℕ, ◌≤◌, ◌<◌, String, ◌&◌, ◌≡◌, sym, ap, ◌∙◌, arith, true, Option, none, some, [], ltb, string_eq,
  if◌then◌else◌,
}
use platform_backend.Dict.{merge}
use platform_backend.Core.Typehints.{Annotation}
use platform_backend.Core.Context.{RequestContext}
use platform_backend.Core.Client.{Response, answered, Returned}
use platform_backend.Core.Client.Request.{
  Request, Network, Tenacity, ServiceClient, handle_outcome, request_once, attempt, should_retry,
  request,
}
use platform_backend.Core.Client.Retry.{Fails, start, again, fails_transiently}
use platform_backend.Core.Client.Recovery.{request_with_retry-recovers}
use platform_backend.Core.Feign.Quote.{quote}
use platform_backend.Core.Feign.Call.{Called, done, context_headers}
use platform_backend.UcApi.{UserResponse}
use platform_backend.UcApi.Client.{user_type, Payloads, service_client}
use platform_backend.UcApi.Client.Laws.{uc_client-Sends}
use platform_backend.FlowApi.Protocol.{FlowApi}
use platform_backend.Uc.{Reply}
use platform_backend.Uc.Invariant.{IsUserResponse}
use platform_backend.Bff.{user_read, get_user}
use platform_backend.Bff.Outcomes.{asked}
use platform_backend.Bff.Replies.{Writes, IsFinal, Fits, Answers, handled_final, handled-Answers}

module _ {W J M : Type 0} (network : Network W J) (validate : Annotation → J → Option M)
    (tenacity : Tenacity W (Returned J M)) (c : ServiceClient) where
  attempts_from_one :
      (req : Request J) (model : Option Annotation) (w : W) {m : ℕ} {v : W}
      → Fails network validate tenacity c req model 1 w m v
      → 0 < m
  attempts_from_one req model w start = omega arith
  attempts_from_one req model w (again before failed) =
      omega (arith, attempts_from_one req model w before)

  get_is_retried :
      (m : ℕ) → 0 < m → m ≤ c.max_retries → should_retry network validate tenacity c "GET" ≡ true
  unfolding should_retry
  get_is_retried m low high = ground arith

  -- The request for a user, and the world in which its attempt `m` is sent.
  abbrev pub user_request : String → RequestContext → Request J
  user_request id ctx =
      asked network validate tenacity c "GET" ("/users/" & quote id) none none (some ctx)

  abbrev pub before_attempt : Request J → ℕ → W → W
  before_attempt req m v = if ltb 1 m then network.warn m c.max_retries req v else v

module _ {W J M : Type 0} (network : Network W J) (validate : Annotation → J → Option M)
    (tenacity : Tenacity W (Returned J M)) (c : ServiceClient) (payloads : Payloads J)
    (flow_client : FlowApi W (Called (Returned J M))) (encode : UserResponse → J)
    (read : UserResponse → M) (respond : Reply UserResponse → Response J) where
  -- A read of a user through the BFF outlasts failures: if the attempts before the `m`-th fail
  -- transiently (no connection, a timeout, a 5xx), `m` is at most `max_retries`, and the `m`-th brings a
  -- well-typed user or a 4xx of UC, then the caller gets that, as if it had come at once; with a
  -- pydantic that reads back what is written of a well-typed user.
  pub user_read_recovers :
      Writes encode respond
      → ((user : UserResponse)
          → IsUserResponse user
          → validate user_type (encode user) ≡ some (read user))
      → (id : String) (ctx : RequestContext) (w w' : W) (m : ℕ) (v : W) (reply : Reply UserResponse)
      → Fails network validate tenacity c
          (user_request network validate tenacity c id ctx)
          (some user_type)
          1
          w
          m
          v
      → m ≤ c.max_retries
      → network.send (user_request network validate tenacity c id ctx) (
          before_attempt network validate tenacity c
            (user_request network validate tenacity c id ctx)
            m
            v)
        ≡ (answered (respond reply), w')
      → IsFinal reply
      → Fits IsUserResponse reply
      → Answers user_read 200 read reply w'
          (get_user flow_client (service_client network validate tenacity c payloads) id ctx w)
  unfolding get_user request request_once attempt merge
  user_read_recovers writes valid id ctx w w' m v reply before le served final fits =
      let req = user_request network validate tenacity c id ctx in
      let retried =
        get_is_retried network validate tenacity c m
          (attempts_from_one network validate tenacity c req (some user_type) w before) le in
      let once : attempt network validate tenacity c req (some user_type) m v ≡ (
        handle_outcome validate c.service_name (some user_type) (answered (respond reply)),
        w',
      ) =
        ap (λ p. let (o, u) = p in (handle_outcome validate c.service_name (some user_type) o, u))
          served in
      let steady =
        handled_final network validate tenacity c user_type encode read respond tt writes
          IsUserResponse valid reply final fits in
      let recovered =
        request_with_retry-recovers network validate tenacity c req (some user_type) w before le
          (ap (λ p. fails_transiently p.0) once ∙ steady)
        ∙ once in
      let answered_at_last : request network validate tenacity c "GET" ("/users/" & quote id)
            (context_headers (some ctx)) (some user_type) none none [] w
          ≡ (
            handle_outcome validate c.service_name (some user_type) (answered (respond reply)),
            w',
          ) =
        rw retried recovered in
      subst (Answers user_read 200 read reply w')
        (sym (
          (uc_client-Sends network validate tenacity c payloads).get_user_sends id (some ctx) w
          ∙ ap (λ p. let (o, u) = p in (done o, u)) answered_at_last))
        (handled-Answers network validate tenacity c user_type encode read respond tt writes
          IsUserResponse valid reply user_read w' final fits)
