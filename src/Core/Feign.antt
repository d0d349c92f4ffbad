-- ===== src/Core/Feign.antt =====
-- packages/core/src/novon/core/http/feign.py: the validation of a declared endpoint, and the arguments
-- of a call of it. `hints` is `typing.get_type_hints(func)`, `none` where it raises, and `is_model` is
-- `isinstance(hint, type) and issubclass(hint, BaseModel)`. `\w` is read over ASCII.
pub mod Spec
pub mod PathArguments
pub mod Quote
pub mod Format
pub mod Template
pub mod Call
pub mod Verbs
use platform_backend.Prelude.{
  ℕ, String, ◌&◌, Char, code, Bool, true, false, not, ◌&&◌, ◌||◌, Option, none, some, List, [], ◌∷◌,
  ◌++◌, leb, ◌==◌, nat_eq, string_eq, if◌then◌else◌, contains, select, is_empty,
}
use platform_backend.Dict.{Dict, get, put, pop}
use platform_backend.Core.Typehints.{Annotation, is_none_type}

abbrev pub body_methods : List String
body_methods = "POST" ∷ "PUT" ∷ "PATCH" ∷ []

-- `_PARTIAL_UPDATE_METHODS`
abbrev pub partial_update_methods : List String
partial_update_methods = "PATCH" ∷ []

abbrev pub supported_methods : List String
supported_methods = "GET" ∷ "HEAD" ∷ "OPTIONS" ∷ "POST" ∷ "PUT" ∷ "PATCH" ∷ "DELETE" ∷ []

abbrev between : ℕ → ℕ → Char → Bool
between lo hi c = leb lo (code c) && leb (code c) hi

unfoldable pub is_word_char : Char → Bool
is_word_char c =
    (between b'a' b'z' c || between b'A' b'Z' c) || (between b'0' b'9' c || code c == b'_')

-- The word read since the last opening brace, after one more character.
unfoldable pub opened : Option String → Char → Option String
unfolding is_word_char
opened none c = if code c == b'{' then some "" else none
opened (some word) c =
    if code c == b'{'
    then some ""
    else if is_word_char c
    then some (word & String.◌∷◌ c String.[])
    else none

unfoldable pub closed : Option String → Char → List String
closed none c = []
closed (some word) c = if code c == b'}' && not (is_empty word) then word ∷ [] else []

-- `_PATH_PLACEHOLDER_RE.findall(path)`
unfoldable pub find_all : Option String → String → List String
unfolding opened closed
find_all word String.[] = []
find_all word (String.◌∷◌ c path) = closed word c ++ find_all (opened word c) path

pub record EndpointSpec : Type 0 where
  pub method : String
  pub path_template : String
  pub path_params : List String
  pub body_param : Option String
  pub query_params : List String
  pub response_type : Annotation
  pub partial_update : Bool

-- `EndpointSpec.no_content`
abbrev pub no_content : EndpointSpec → Bool
no_content spec = is_none_type spec.response_type

-- What the TypeError of `_build_spec` is about.
pub data SpecError : Type 0 where
  unsupported_method : String → SpecError
  unresolved_hints : SpecError
  missing_return : SpecError
  undeclared : List String → SpecError
  multiple_bodies : List String → SpecError
  missing_body : SpecError
  unexpected_body : String → SpecError

pub data Built : Type 0 where
  built : EndpointSpec → Built
  type_error : SpecError → Built

abbrev pub is_body : String → Option String → Bool
is_body name none = false
is_body name (some body) = name == body

abbrev pub wire_params : List String → List String
wire_params = select λ name. not (name == "self") && not (name == "ctx")

abbrev pub undeclared_params : List String → List String → List String
undeclared_params path_params wire = select (λ name. not (contains name wire)) path_params

abbrev pub query_params_of : List String → Option String → List String → List String
query_params_of path_params body =
    select λ name. not (contains name path_params) && not (is_body name body)

module _ (is_model : Annotation → Bool) where
  abbrev pub has_model : Option Annotation → Bool
  has_model none = false
  has_model (some hint) = is_model hint

  abbrev pub body_params_of : Dict String Annotation → List String → List String → List String
  body_params_of hints path_params =
      select λ name. not (contains name path_params) && has_model (get name hints)

module _ (method path : String) (wire : List String) (response_type : Annotation) where
  abbrev pub spec_with : List String → Option String → Built
  spec_with path_params body = built (record {
    method = method;
    path_template = path;
    path_params = path_params;
    body_param = body;
    query_params = query_params_of path_params body wire;
    response_type = response_type;
    partial_update = contains method partial_update_methods;
  })

  abbrev pub with_bodies : List String → List String → Built
  with_bodies path_params [] =
      if contains method body_methods then type_error missing_body else spec_with path_params none
  with_bodies path_params (body ∷ []) =
      if contains method body_methods
      then spec_with path_params (some body)
      else type_error (unexpected_body body)
  with_bodies path_params (body ∷ second ∷ rest) =
      type_error (multiple_bodies (body ∷ second ∷ rest))

  abbrev pub with_declared : List String → List String → List String → Built
  with_declared path_params [] bodies = with_bodies path_params bodies
  with_declared path_params (name ∷ names) bodies = type_error (undeclared (name ∷ names))

module _ (is_model : Annotation → Bool) (method path : String) (parameters : List String) where
  abbrev pub with_return : Dict String Annotation → Option Annotation → Built
  with_return hints none = type_error missing_return
  with_return hints (some response_type) =
      let wire = wire_params parameters in
      let path_params = find_all none path in
      with_declared method path wire response_type path_params (undeclared_params path_params wire)
        (body_params_of is_model hints path_params wire)

  abbrev pub with_hints : Option (Dict String Annotation) → Built
  with_hints none = type_error unresolved_hints
  with_hints (some hints) = with_return hints (get "return" hints)

  -- `_build_spec`
  unfoldable pub build_spec : Option (Dict String Annotation) → Built
  unfolding find_all
  build_spec hints =
      if contains method supported_methods
      then with_hints hints
      else type_error (unsupported_method method)

-- The path variables and the arguments left, or what the call raises.
pub data Taken (V : Type 0) : Type 0 where
  taken : Dict String String → Dict String V → Taken V
  key_error : String → Taken V
  none_error : String → Taken V

-- `is_none` is `value is None`, and `quoted` is `quote(str(value), safe="")`.
module _ {V : Type 0} (is_none : V → Bool) (quoted : V → String) where
  abbrev pub unless_none : String → Bool → Taken V → Taken V
  unless_none name true rest = none_error name
  unless_none name false rest = rest

  abbrev pub popped : String → Option V → (V → Taken V) → Taken V
  popped name none rest = key_error name
  popped name (some value) rest = unless_none name (is_none value) (rest value)

  -- The loop of the wrapper over `spec.path_params`.
  unfoldable pub take_path : List String → Dict String V → Dict String String → Taken V
  take_path [] arguments path_vars = taken path_vars arguments
  take_path (name ∷ names) arguments path_vars =
      popped name (get name arguments)
        (λ value. take_path names (pop name arguments) (put name (quoted value) path_vars))
