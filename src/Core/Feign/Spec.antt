-- ===== src/Core/Feign/Spec.antt =====
-- packages/core/src/novon/core/http/feign.py: what `_build_spec` guarantees of an endpoint it accepts.
use mathlib.Core.Path.{subst}
use platform_backend.Prelude.{
  String, ◌≡◌, ◌≢◌, refl, Bool, true, false, not, ◌&&◌, Option, none, some, List, [], ◌∷◌, ◌==◌,
  string_eq, arith, contains, contains-select, is_distinct, is_distinct-select, Option-cases,
  Bool-cases, inl, inr, sym, ap, ◌∙◌,
}
use platform_backend.Dict.{Dict, get, is_some}
use platform_backend.Core.Typehints.{Annotation}
use platform_backend.Core.Feign.{
  body_methods, supported_methods, find_all, EndpointSpec, built, SpecError, type_error, is_body,
  wire_params, undeclared_params, has_model, body_params_of, spec_with, with_bodies, with_declared,
  build_spec,
}

type_error-ne-built : {spec : EndpointSpec} {x : SpecError} → type_error x ≢ built spec
type_error-ne-built e = cc

built_inj : {a b : EndpointSpec} → built a ≡ built b → a ≡ b
built_inj e = cc

-- The body among the candidates, as the method asks for it.
record Chosen (method : String) (bodies : List String) (body : Option String) : Type 0 where
  asked : is_some body ≡ contains method body_methods
  among : (name : String) → is_body name body ≡ true → contains name bodies ≡ true

module _ (method path : String) (wire : List String) (response_type : Annotation)
    (path_params : List String) (spec : EndpointSpec) where
  body_of_built :
      (bodies : List String)
      → with_bodies method path wire response_type path_params bodies ≡ built spec
      → (body : Option String) × Chosen method bodies body
        × (spec_with method path wire response_type path_params body ≡ built spec)
  body_of_built [] e = elim (Bool-cases (contains method body_methods)) [
    | inl asked ↦ absurd (type_error-ne-built (rw asked at e))
    | inr other ↦ (none, record { asked = sym other; among = λ name h. cc }, rw other at e)
  ]
  body_of_built (body ∷ []) e = elim (Bool-cases (contains method body_methods)) [
    | inl asked ↦
        (some body, record { asked = sym asked; among = λ name h. rw h refl }, rw asked at e)
    | inr other ↦ absurd (type_error-ne-built (rw other at e))
  ]
  body_of_built (body ∷ second ∷ rest) e = absurd (type_error-ne-built e)

  nothing_of_built :
      (missing bodies : List String)
      → with_declared method path wire response_type path_params missing bodies ≡ built spec
      → (missing ≡ [])
        × (with_bodies method path wire response_type path_params bodies ≡ built spec)
  nothing_of_built [] bodies e = (refl, e)
  nothing_of_built (name ∷ names) bodies e = absurd (type_error-ne-built e)

-- What an accepted declaration promises to the wrapper that serves its calls.
pub record IsSound (is_model : Annotation → Bool) (method path : String) (parameters : List String)
    (hints : Dict String Annotation) (spec : EndpointSpec) : Type 0 where
  pub supported : contains method supported_methods ≡ true
  pub own_method : spec.method ≡ method
  pub own_template : spec.path_template ≡ path
  pub partial : spec.partial_update ≡ (method == "PATCH")
  pub own_placeholders : spec.path_params ≡ find_all none path
  pub returns : get "return" hints ≡ some spec.response_type
  pub declared :
      (name : String)
      → contains name spec.path_params ≡ true
      → contains name (wire_params parameters) ≡ true
  pub body_asked : is_some spec.body_param ≡ contains method body_methods
  pub body_typed :
      (name : String)
      → is_body name spec.body_param ≡ true
      → (contains name (wire_params parameters) ≡ true)
        × (contains name spec.path_params ≡ false)
        × (has_model is_model (get name hints) ≡ true)
  pub query_distinct :
      is_distinct (wire_params parameters) ≡ true → is_distinct spec.query_params ≡ true
  pub query_rest :
      (name : String)
      → contains name spec.query_params ≡ (
          contains name (wire_params parameters)
          && (not (contains name spec.path_params) && not (is_body name spec.body_param)))

nothing_missing :
    (name : String) (path_params wire : List String)
    → undeclared_params path_params wire ≡ []
    → contains name path_params ≡ true
    → contains name wire ≡ true
nothing_missing name path_params wire e given =
    let none_left : (contains name path_params && not (contains name wire)) ≡ false =
      sym (contains-select (λ n. not (contains n wire)) name path_params) ∙ ap (contains name) e in
    ground arith

module _ (is_model : Annotation → Bool) (method path : String) (parameters : List String)
    (hints : Dict String Annotation) (spec : EndpointSpec) where
  body_facts :
      (path_params wire : List String) (name : String)
      → contains name (body_params_of is_model hints path_params wire) ≡ true
      → (contains name wire ≡ true)
        × (contains name path_params ≡ false)
        × (has_model is_model (get name hints) ≡ true)
  body_facts path_params wire name among =
      let facts =
        (sym (
            contains-select (λ n. not (contains n path_params) && has_model is_model (get n hints))
              name wire)
          ∙ among) in
      ground arith

  -- An endpoint that `_build_spec` accepts has a supported method and a return annotation; every
  -- placeholder of its path is a declared parameter other than self and ctx; it has a body exactly
  -- if its method carries one, and the body is a model outside the path; and its query parameters are
  -- exactly the other declared parameters, those that are neither in the path nor the body, each once
  -- if the declared names differ;
  -- only a PATCH sends a partial body.
  pub build_spec-IsSound :
      build_spec is_model method path parameters (some hints) ≡ built spec
      → IsSound is_model method path parameters hints spec
  unfolding build_spec
  build_spec-IsSound e = elim (Bool-cases (contains method supported_methods)) [
    | inr other ↦ absurd (type_error-ne-built (rw other at e))
    | inl supported ↦ elim (Option-cases (get "return" hints)) [
      | inl missing ↦ absurd (type_error-ne-built (rw (supported, missing) at e))
      | inr (response_type, returns) ↦
          let wire = wire_params parameters in
          let path_params = find_all none path in
          let (declared, with_body) =
            nothing_of_built method path wire response_type path_params spec
              (undeclared_params path_params wire) (body_params_of is_model hints path_params wire)
              (rw (supported, returns) at e) in
          let (body, chosen, same) =
            body_of_built method path wire response_type path_params spec
              (body_params_of is_model hints path_params wire) with_body in
          subst (IsSound is_model method path parameters hints) (built_inj same) (record {
            supported = supported;
            own_method = refl;
            own_template = refl;
            partial = ground arith;
            own_placeholders = refl;
            returns = returns;
            declared = λ name. nothing_missing name path_params wire declared;
            body_asked = chosen.asked;
            body_typed = λ name is_it. body_facts path_params wire name (chosen.among name is_it);
            query_distinct = is_distinct-select _ wire;
            query_rest = λ name.
                contains-select (λ n. not (contains n path_params) && not (is_body n body)) name
                  wire;
          })
    ]
  ]
