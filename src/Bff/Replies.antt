-- ===== src/Bff/Replies.antt =====
-- From the reply of a service's route to the answer of the BFF, over the client and the network.
use mathlib.Core.Path.{subst}
use platform_backend.Prelude.{
  ℕ, String, ◌≡◌, refl, sym, ap, ◌∙◌, arith, true, false, ◌&&◌, and_left, Option, some, [], leb,
  Bool, ◌||◌, ◌==◌, nat_eq, code, ltb, string_eq, if◌then◌else◌,
}
use platform_backend.Dict.{Dict}
use platform_backend.Core.Typehints.{
  Annotation, none_type, class_type, list_type, union, unwrap_optional,
}
use platform_backend.Core.Context.{RequestContext}
use platform_backend.Core.Client.{
  Response, answered, Returned, parsed, service_error, Result, ok, raised, map_http_error,
  parse_response,
}
use platform_backend.Core.Client.Request.{
  Network, Tenacity, ServiceClient, handle_outcome, is_transient,
}
use platform_backend.Core.Client.Parsing.{map_http_error_status}
use platform_backend.Core.Client.Final.{request_of_final}
use platform_backend.Core.Client.Retry.{fails_transiently}
use platform_backend.Core.Feign.Call.{Called, done, context_headers}
use platform_backend.Core.Feign.Call.Declared.{sent}
use platform_backend.Uc.{Reply, http_exception, unhandled}
use platform_backend.Uc as Uc
use platform_backend.Bff.{Endpoint, status_code, success, answer, status_of}
use platform_backend.Bff.Outcomes.{asked}

-- A slash of a path parameter, quoted or not, ends the segment: FastAPI decodes a path before it matches
-- its routes.
abbrev pub has_slash : String → Bool
has_slash String.[] = false
has_slash (String.◌∷◌ c s) = (code c == 47) || has_slash s

-- A model that is no union and not None.
abbrev pub IsPlainModel : Annotation → Type 0
IsPlainModel (class_type c) = Unit
IsPlainModel (list_type a) = Unit
IsPlainModel _ = ⊥

-- How FastAPI writes a route's reply: a result as its JSON, an HTTPException under its status; from 400
-- on that is an error for `raise_for_status`.
pub record Writes {A J : Type 0} (encode : A → J) (respond : Reply A → Response J) : Type 0 where
  pub of_ok :
      (a : A) → ((respond (Uc.ok a)).raises ≡ false) × ((respond (Uc.ok a)).json ≡ some (encode a))
  pub of_error :
      (code : ℕ) (detail : String)
      → leb 400 code ≡ true
      → ((respond (http_exception code detail)).raises ≡ true)
        × ((respond (http_exception code detail)).status_code ≡ code)

-- A result, or an error that is the client's.
abbrev pub IsFinal : {A : Type 0} → Reply A → Type 0
IsFinal (Uc.ok a) = Unit
IsFinal (http_exception code detail) = (leb 400 code && ltb code 500) ≡ true
IsFinal unhandled = ⊥

-- A result is one that pydantic admits.
abbrev pub Fits : {A : Type 0} → (A → Type 0) → Reply A → Type 0
Fits fits (Uc.ok a) = fits a
Fits fits (http_exception code detail) = Unit
Fits fits unhandled = Unit

-- The BFF answers as the service replies, a result under `status`, and the world is left as `w`.
abbrev pub Answers :
    {A J M W : Type 0} → Endpoint → ℕ → (A → M) → Reply A → W → Called (Returned J M) × W → Type 0
Answers endpoint status read (Uc.ok a) w (called, v) =
    (answer endpoint called ≡ success status (parsed (read a))) × (v ≡ w)
Answers endpoint status read (http_exception code detail) w (called, v) =
    (status_of (answer endpoint called) ≡ code) × (v ≡ w)
Answers endpoint status read unhandled w (called, v) = ⊥

module _ {J M : Type 0} (validate : Annotation → J → Option M) (name : String) where
  handle_ok :
      (model : Annotation) (r : Response J) (j : J) (m : M)
      → IsPlainModel model
      → r.raises ≡ false
      → r.json ≡ some j
      → validate model j ≡ some m
      → handle_outcome validate name (some model) (answered r) ≡ ok (parsed m)
  unfolding handle_outcome parse_response unwrap_optional
  handle_ok none_type r j m plain good body valid = elim plain [ ]
  handle_ok (union args) r j m plain good body valid = elim plain [ ]
  handle_ok (class_type c) r j m plain good body valid = rw (good, body, valid) refl
  handle_ok (list_type a) r j m plain good body valid = rw (good, body, valid) refl

  handle_error :
      (model : Option Annotation) (r : Response J)
      → r.raises ≡ true
      → handle_outcome validate name model (answered r)
        ≡ raised (service_error (map_http_error r.status_code r.text name))
  unfolding handle_outcome
  handle_error model r bad = rw bad refl

module _ {A W J M : Type 0} (network : Network W J) (validate : Annotation → J → Option M)
    (tenacity : Tenacity W (Returned J M)) (c : ServiceClient) (model : Annotation) (encode : A → J)
    (read : A → M) (respond : Reply A → Response J) (plain : IsPlainModel model)
    (writes : Writes encode respond) (fits : A → Type 0)
    (valid : (a : A) → fits a → validate model (encode a) ≡ some (read a)) where
  abbrev pub handled : Reply A → Result (Returned J M)
  handled reply = handle_outcome validate c.service_name (some model) (answered (respond reply))

  below : (code : ℕ) → (leb 400 code && ltb code 500) ≡ true → leb 500 code ≡ false
  below code h = ground arith

  -- A final reply is no reason to try again.
  pub handled_final :
      (reply : Reply A)
      → IsFinal reply
      → Fits fits reply
      → fails_transiently (handled reply) ≡ false
  unfolding is_transient
  handled_final (Uc.ok a) final good_result =
      let (good, body) = writes.of_ok a in
      ap fails_transiently (
        handle_ok validate c.service_name model (respond (Uc.ok a)) (encode a) (read a) plain good
          body (valid a good_result))
  handled_final (http_exception code detail) final any =
      let (bad, same) = writes.of_error code detail (and_left _ _ final) in
      let r = respond (http_exception code detail) in
      ap fails_transiently (handle_error validate c.service_name (some model) r bad)
      ∙ (map_http_error_status r.status_code r.text c.service_name).1
      ∙ ap (leb 500) same
      ∙ below code final
  handled_final unhandled final any = elim final [ ]

  pub handled-Answers :
      (reply : Reply A) (endpoint : Endpoint) (w : W)
      → IsFinal reply
      → Fits fits reply
      → Answers endpoint (status_code endpoint) read reply w (done (handled reply), w)
  unfolding answer
  handled-Answers (Uc.ok a) endpoint w final good_result =
      let (good, body) = writes.of_ok a in
      (
        ap (λ r. answer endpoint (done r))
            (handle_ok validate c.service_name model (respond (Uc.ok a)) (encode a) (read a) plain
              good body (valid a good_result)),
        refl,
      )
  handled-Answers (http_exception code detail) endpoint w final any =
      let (bad, same) = writes.of_error code detail (and_left _ _ final) in
      let r = respond (http_exception code detail) in
      (
        ap (λ o. status_of (answer endpoint (done o)))
              (handle_error validate c.service_name (some model) r bad)
            ∙ (map_http_error_status r.status_code r.text c.service_name).0
            ∙ ap (λ n. if leb 400 n && ltb n 500 then n else 502) same
            ∙ rw final refl,
        refl,
      )
  handled-Answers unhandled endpoint w final any = elim final [ ]

  -- One attempt brings the reply of the service to the caller of the BFF.
  pub sent-Answers :
      (method path : String) (json : Option J) (params : Option (Dict String J))
      (ctx : Option RequestContext) (w w' : W) (reply : Reply A) (endpoint : Endpoint)
      → IsFinal reply
      → Fits fits reply
      → network.send (asked network validate tenacity c method path json params ctx) w
        ≡ (answered (respond reply), w')
      → Answers endpoint
          (status_code endpoint)
          read
          reply
          w'
          (sent network validate tenacity c false method path (some model) json params ctx w)
  sent-Answers method path json params ctx w w' reply endpoint final good_result served =
      let once =
        request_of_final network validate tenacity c method path (context_headers ctx) (some model)
          json params [] w (answered (respond reply)) w' served
          (handled_final reply final good_result) in
      subst (Answers endpoint (status_code endpoint) read reply w')
        (sym (ap (λ p. let (o, v) = p in (done o, v)) once))
        (handled-Answers reply endpoint w' final good_result)
