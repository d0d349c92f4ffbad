-- ===== src/Core/Feign/Call.antt =====
-- packages/core/src/novon/core/http/feign.py: a call of a declared endpoint, from its bound arguments
-- to the result of `BaseServiceClient.request`. `arguments` is `dict(bound.arguments)` after
-- `sig.bind` and `apply_defaults`, without `self` and `ctx`, which the wrapper takes out first.
pub mod Arguments
pub mod Sends
pub mod Declared
pub mod Paths
use platform_backend.Prelude.{
  ℕ, String, Bool, true, false, Option, none, some, List, [], ◌∷◌, string_eq, if◌then◌else◌,
}
use platform_backend.Dict.{Dict, get, pop}
use platform_backend.Core.Typehints.{Annotation, none_type}
use platform_backend.Core.Context.{RequestContext, to_headers}
use platform_backend.Core.Client.{Returned, nothing, Result, ok, raised}
use platform_backend.Core.Client.Request.{Network, Tenacity, ServiceClient, request}
use platform_backend.Core.Feign.{
  EndpointSpec, SpecError, Built, built, type_error, build_spec, Taken, taken, key_error,
  none_error, take_path,
}
use platform_backend.Core.Feign.Quote.{quote}
use platform_backend.Core.Feign.Format.{Formatted, formatted, value_error, conversion, format_map}
use platform_backend.Core.Feign.Format as Format

-- A value as the wrapper uses it: `value is None`, `str(value)`, the value itself, and what it is as
-- a body, which is `value.model_dump(mode="json", exclude_unset=...)` where it has a `model_dump`.
pub record Argument (J : Type 0) : Type 0 where
  pub is_none : Bool
  pub text : String
  pub value : J
  pub dump : Bool → J

abbrev pub is_none_argument : {J : Type 0} → Argument J → Bool
is_none_argument a = a.is_none

abbrev pub quoted : {J : Type 0} → Argument J → String
quoted a = quote a.text

-- What a call raises before it sends anything. `not_declared` is the TypeError of the decorator, which
-- leaves no method to call.
pub data CallError : Type 0 where
  key_missing : String → CallError
  none_argument : String → CallError
  bad_template : CallError
  converted_field : CallError
  not_declared : SpecError → CallError

pub data Prepared (J : Type 0) : Type 0 where
  prepared : (path : String) (json : Option J) (params : Option (Dict String J)) → Prepared J
  failed : CallError → Prepared J

module _ {J : Type 0} where
  abbrev pub kept_query :
      String → Option (Argument J) → Dict String J → Dict String J → Dict String J
  kept_query name none popped kept = kept
  kept_query name (some argument) popped kept =
      if argument.is_none then kept else (name, argument.value) ∷ popped

  -- The comprehension over `spec.query_params`.
  unfoldable pub take_query : List String → Dict String (Argument J) → Dict String J
  take_query [] arguments = []
  take_query (name ∷ names) arguments =
      let popped = take_query names (pop name arguments) in
      let kept = take_query names arguments in kept_query name (get name arguments) popped kept

  -- `query_params or None`
  abbrev pub non_empty : Dict String J → Option (Dict String J)
  non_empty [] = none
  non_empty (entry ∷ params) = some (entry ∷ params)

  -- A body that is None is no body.
  abbrev pub body_of : Bool → Argument J → Option J
  body_of partial body = if body.is_none then none else some (body.dump partial)

  abbrev pub with_body :
      EndpointSpec
      → String
      → Dict String (Argument J)
      → Option (String × Option (Argument J))
      → Prepared J
  with_body spec path arguments none =
      prepared path none (non_empty (take_query spec.query_params arguments))
  with_body spec path arguments (some (name, none)) = failed (key_missing name)
  with_body spec path arguments (some (name, some body)) =
      prepared path (body_of spec.partial_update body)
        (non_empty (take_query spec.query_params (pop name arguments)))

  abbrev pub body_entry :
      Option String → Dict String (Argument J) → Option (String × Option (Argument J))
  body_entry none arguments = none
  body_entry (some name) arguments = some (name, get name arguments)

  abbrev pub with_path : EndpointSpec → Dict String (Argument J) → Formatted → Prepared J
  with_path spec arguments (formatted path) =
      with_body spec path arguments (body_entry spec.body_param arguments)
  with_path spec arguments (Format.key_error name) = failed (key_missing name)
  with_path spec arguments value_error = failed bad_template
  with_path spec arguments conversion = failed converted_field

  abbrev pub with_taken : EndpointSpec → Taken (Argument J) → Prepared J
  with_taken spec (taken path_vars arguments) =
      with_path spec arguments (format_map path_vars spec.path_template)
  with_taken spec (key_error name) = failed (key_missing name)
  with_taken spec (none_error name) = failed (none_argument name)

  unfoldable pub prepare : EndpointSpec → Dict String (Argument J) → Prepared J
  unfolding take_path take_query format_map quote
  prepare spec arguments =
      with_taken spec (take_path is_none_argument quoted spec.path_params arguments [])

-- `_resolve_return_contract`
abbrev pub return_contract : Option Annotation → Bool × Option Annotation
return_contract none = (false, none)
return_contract (some none_type) = (true, none)
return_contract (some declared) = (false, some declared)

abbrev pub context_headers : Option RequestContext → Dict String String
context_headers none = []
context_headers (some ctx) = to_headers ctx

-- `None if expects_none else result`
abbrev pub honoured : {J M : Type 0} → Bool → Result (Returned J M) → Result (Returned J M)
honoured true (ok result) = ok nothing
honoured true (raised e) = raised e
honoured false result = result

pub data Called (A : Type 0) : Type 0 where
  done : Result A → Called A
  refused : CallError → Called A

module _ {W J M : Type 0} (network : Network W J) (validate : Annotation → J → Option M)
    (tenacity : Tenacity W (Returned J M)) (c : ServiceClient) where
  abbrev pub send_prepared :
      EndpointSpec
      → Bool × Option Annotation
      → Option RequestContext
      → Prepared J
      → W
      → Called (Returned J M) × W
  send_prepared spec contract ctx (failed e) w = (refused e, w)
  send_prepared spec (expects_none, response_model) ctx (prepared path json params) w =
      let (result, w') =
        request network validate tenacity c spec.method path (context_headers ctx) response_model
          json params [] w in
      (done (honoured expects_none result), w')

  -- The wrapper of `_route`; `declared` is the return annotation of the endpoint.
  unfoldable pub call_endpoint :
      EndpointSpec
      → Option Annotation
      → Option RequestContext
      → Dict String (Argument J)
      → W
      → Called (Returned J M) × W
  unfolding prepare request to_headers
  call_endpoint spec declared ctx arguments w =
      send_prepared spec (return_contract declared) ctx (prepare spec arguments) w

-- A method under its decorator: the HTTP method and the path given to `_route`, and the parameters and
-- the annotations of the function.
pub record Endpoint : Type 0 where
  pub method : String
  pub path : String
  pub parameters : List String
  pub hints : Dict String Annotation

module _ {W J M : Type 0} (network : Network W J) (validate : Annotation → J → Option M)
    (tenacity : Tenacity W (Returned J M)) (c : ServiceClient) (is_model : Annotation → Bool) where
  abbrev pub call_built :
      Built
      → Endpoint
      → Option RequestContext
      → Dict String (Argument J)
      → W
      → Called (Returned J M) × W
  call_built (built spec) endpoint ctx arguments w =
      call_endpoint network validate tenacity c spec (get "return" endpoint.hints) ctx arguments w
  call_built (type_error e) endpoint ctx arguments w = (refused (not_declared e), w)

  -- `_route(method, path)(func)`, called.
  unfoldable pub call_declared :
      Endpoint → Option RequestContext → Dict String (Argument J) → W → Called (Returned J M) × W
  unfolding build_spec call_endpoint
  call_declared endpoint ctx arguments w =
      call_built
        (build_spec is_model endpoint.method endpoint.path endpoint.parameters
          (some endpoint.hints))
        endpoint ctx arguments w
