-- ===== src/Tests/Endpoints.antt =====
-- Declared endpoints: the update of a user, and a path that has a placeholder twice.
use platform_backend.Prelude.{
  String, ◌≡◌, refl, Bool, true, false, none, some, List, [], ◌∷◌, ◌&&◌, ◌==◌, string_eq, all,
  is_distinct,
}
use platform_backend.Dict.{Dict, get}
use platform_backend.Core.Typehints.{Annotation, class_type, none_type}
use platform_backend.Core.Feign.{EndpointSpec, build_spec, built, take_path}
use platform_backend.Core.Feign.Spec.{IsSound, build_spec-IsSound}
use platform_backend.Core.Feign.PathArguments.{is_taken, is_given, is_taken-take_path}

abbrev pub is_user_update : Annotation → Bool
is_user_update (class_type c) = c == "UserUpdate"
is_user_update a = false

abbrev pub update_hints : Dict String Annotation
update_hints =
    ("user_id", class_type "str")
    ∷ ("payload", class_type "UserUpdate")
    ∷ ("return", class_type "UserResponse")
    ∷ []

abbrev pub update_parameters : List String
update_parameters = "self" ∷ "user_id" ∷ "payload" ∷ "ctx" ∷ []

abbrev pub update_spec : EndpointSpec
update_spec = record {
  method = "PATCH";
  path_template = "/users/{user_id}";
  path_params = "user_id" ∷ [];
  body_param = some "payload";
  query_params = [];
  response_type = class_type "UserResponse";
  partial_update = true;
}

pub update_built :
    build_spec is_user_update "PATCH" "/users/{user_id}" update_parameters (some update_hints)
    ≡ built update_spec
unfolding build_spec get
update_built = refl

build_spec-IsSound_example :
    IsSound is_user_update "PATCH" "/users/{user_id}" update_parameters update_hints update_spec
build_spec-IsSound_example =
    build_spec-IsSound is_user_update "PATCH" "/users/{user_id}" update_parameters update_hints
      update_spec update_built

abbrev twice_hints : Dict String Annotation
twice_hints = ("x", class_type "str") ∷ ("return", none_type) ∷ []

twice_accepted :
    build_spec is_user_update "GET" "/a/{x}/{x}" ("self" ∷ "x" ∷ []) (some twice_hints)
    ≡ built (record {
      method = "GET";
      path_template = "/a/{x}/{x}";
      path_params = "x" ∷ "x" ∷ [];
      body_param = none;
      query_params = [];
      response_type = none_type;
      partial_update = false;
    })
unfolding build_spec get
twice_accepted = refl

abbrev never_none : String → Bool
never_none value = false

abbrev as_is : String → String
as_is value = value

is_taken-take_path_example :
    is_taken (take_path never_none as_is ("x" ∷ "x" ∷ []) (("x", "1") ∷ []) []) ≡ (
      is_distinct {A = String} ("x" ∷ "x" ∷ [])
      && all {A = String}
          (λ n. is_given never_none as_is (get n (("x", "1") ∷ [])))
          ("x" ∷ "x" ∷ []))
is_taken-take_path_example =
    is_taken-take_path never_none as_is ("x" ∷ "x" ∷ []) (("x", "1") ∷ []) []
