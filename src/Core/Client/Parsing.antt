-- ===== src/Core/Client/Parsing.antt =====
-- How the outcome of one attempt becomes a result, and what a gateway answers for each error.
use platform_backend.Prelude.{
  ℕ, String, ◌≡◌, ◌⊎◌, inl, inr, refl, arith, sym, Bool, true, false, ◌&&◌, Option, none, some, ltb,
  leb, nat_eq, if◌then◌else◌, Bool-cases, Option-cases,
}
use platform_backend.Core.Typehints.{
  Annotation, none_type, class_type, list_type, union, unwrap_optional, is_none_type,
}
use platform_backend.Core.Typehints.Laws.{IsUnion, admits_none, unwrap_optional-returns}
use platform_backend.Core.Errors.{ServiceCallError}
use platform_backend.Core.Errors.Handlers.{map_service_error_to_status}
use platform_backend.Core.Client.{
  Response, timeout_exception, other_error, Outcome, answered, broken, threw, Returned, raw,
  nothing, parsed, Raised, service_error, unreadable, escaped, Result, ok, raised, map_http_error,
  parse_response, is_empty_list, of_json, of_unwrapped,
}
use platform_backend.Core.Client.Request.{handle_outcome, is_transient, catch_unreadable}

-- A response model that Python can build; none at all asks for the raw response.
abbrev pub IsResponseModel : Option Annotation → Type 0
IsResponseModel none = Unit
IsResponseModel (some model) = IsUnion model

module _ {J M : Type 0} (validate : Annotation → J → Option M) (r : Response J) where
  of_unwrapped-lem :
      (model : Annotation)
      → IsUnion model
      → of_unwrapped validate model r (unwrap_optional model) ≡ (
          if admits_none model && is_empty_list r.content
          then ok nothing
          else of_json validate model r.json)
  of_unwrapped-lem model u =
      let (inner, unwrapped, _, _) = unwrap_optional-returns model u in
      rw (unwrapped, of_unwrapped) refl

  -- For a model other than None the body is parsed, except that an empty body under a model that
  -- admits None gives None; a body that is no JSON or does not fit the model is unreadable.
  pub parse_response-lem :
      (model : Annotation)
      → IsUnion model
      → is_none_type model ≡ false
      → parse_response validate r (some model) ≡ (
          if admits_none model && is_empty_list r.content
          then ok nothing
          else of_json validate model r.json)
  unfolding parse_response
  parse_response-lem none_type u n = cc
  parse_response-lem (class_type c) u n = of_unwrapped-lem (class_type c) u
  parse_response-lem (list_type a) u n = of_unwrapped-lem (list_type a) u
  parse_response-lem (union args) u n = of_unwrapped-lem (union args) u

  of_json_cases :
      (model : Annotation)
      → ((a : Returned J M) × (of_json validate model r.json ≡ ok a))
        ⊎ (of_json validate model r.json ≡ raised unreadable)
  of_json_cases model = elim (Option-cases r.json) [
    | inl bad ↦ inr (rw bad refl)
    | inr (j, decoded) ↦ elim (Option-cases (validate model j)) [
      | inl bad ↦ inr (rw (decoded, bad) refl)
      | inr (m, valid) ↦ inl (parsed m, rw (decoded, valid) refl)
    ]
  ]

  -- Parsing returns, or finds the body unreadable; it never fails otherwise.
  parse_response_cases :
      (model : Option Annotation)
      → IsResponseModel model
      → ((a : Returned J M) × (parse_response validate r model ≡ ok a))
        ⊎ (parse_response validate r model ≡ raised unreadable)
  parse_response_cases none u = inl (raw r, unfold parse_response in refl)
  parse_response_cases (some model) u = elim (Bool-cases (is_none_type model)) [
    | inl is_none ↦ inl (nothing, parse_none model is_none)
    | inr other ↦
        rw (parse_response-lem model u other)
          (elim (Bool-cases (admits_none model && is_empty_list r.content)) [
            | inl empty ↦ inl (nothing, rw empty refl)
            | inr full ↦ rw full (of_json_cases model)
          ])
  ]
    where
      parse_none :
          (model : Annotation)
          → is_none_type model ≡ true
          → parse_response validate r (some model) ≡ ok nothing
      parse_none none_type e = unfold parse_response in refl
      parse_none (class_type c) e = cc
      parse_none (list_type a) e = cc
      parse_none (union args) e = cc

pub raised_inj : (A : Type 0) {x y : Raised} → ◌≡◌ {A = Result A} (raised x) (raised y) → x ≡ y
raised_inj A h = cc

-- The status that the service's own caller sees for a failed outcome; 500 is FastAPI's answer to an
-- exception that no handler knows.
abbrev pub gateway : {J : Type 0} → Outcome J → ℕ
gateway (broken (timeout_exception text)) = 504
gateway (broken (other_error text)) = 502
gateway (threw text) = 500
gateway (answered r) =
    if r.raises && (leb 400 r.status_code && ltb r.status_code 500) then r.status_code else 502

-- Whether another attempt may help.
abbrev pub is_retriable : {J : Type 0} → Outcome J → Bool
is_retriable (broken e) = true
is_retriable (threw text) = false
is_retriable (answered r) = r.raises && leb 500 r.status_code

pub map_http_error_status :
    (status : ℕ) (body name : String)
    → (map_service_error_to_status (map_http_error status body name)
        ≡ (if leb 400 status && ltb status 500 then status else 502))
      × (is_transient (service_error (map_http_error status body name)) ≡ leb 500 status)
unfolding map_http_error map_service_error_to_status is_transient
map_http_error_status status body name = ground arith

module _ {J M : Type 0} (validate : Annotation → J → Option M) (service_name : String) where
  abbrev pub IsMapped : Outcome J → Raised → Type 0
  IsMapped (threw text) x = (x ≡ escaped text) × (is_transient x ≡ false)
  IsMapped outcome x =
      (e : ServiceCallError) × (x ≡ service_error e)
      × (map_service_error_to_status e ≡ gateway outcome)
      × (is_transient x ≡ is_retriable outcome)

  -- A failure of an attempt is a service error, unless httpx2 raised an exception that is no
  -- TransportError: that one escapes as it is, and is not retried. The gateway's answer to a service
  -- error is 504 for a timeout, the downstream status for a 4xx, and 502 for any other; and it is
  -- retried exactly if the transport failed or the downstream status was 500 or more.
  pub handle_outcome-IsMapped :
      (model : Option Annotation) (outcome : Outcome J) (x : Raised)
      → IsResponseModel model
      → handle_outcome validate service_name model outcome ≡ raised x
      → IsMapped outcome x
  unfolding handle_outcome parse_response map_service_error_to_status is_transient
  handle_outcome-IsMapped model (broken (timeout_exception text)) x u h =
      (_, raised_inj (Returned J M) (sym h), refl, rw (raised_inj (Returned J M) (sym h)) refl)
  handle_outcome-IsMapped model (broken (other_error text)) x u h =
      (_, raised_inj (Returned J M) (sym h), refl, rw (raised_inj (Returned J M) (sym h)) refl)
  handle_outcome-IsMapped model (threw text) x u h =
      let same = raised_inj (Returned J M) (sym h) in (same, rw same refl)
  handle_outcome-IsMapped model (answered r) x u h = elim (Bool-cases r.raises) [
    | inl bad ↦
        let same = raised_inj (Returned J M) (sym (rw bad at h)) in
        let (status, retried) = map_http_error_status r.status_code r.text service_name in
        (
          map_http_error r.status_code r.text service_name,
          same,
          rw bad status,
          rw (bad, same) retried,
        )
    | inr good ↦ elim (parse_response_cases validate r model u) [
      | inl (a, returned) ↦ cc (rw (good, returned, catch_unreadable) at h)
      | inr failed ↦
          let same = raised_inj (Returned J M) (sym (rw (good, failed, catch_unreadable) at h)) in
          (_, same, rw good refl, rw (good, same) refl)
    ]
  ]
