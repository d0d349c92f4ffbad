-- ===== src/Core/ModelUtils.antt =====
-- packages/core/src/novon/core/model_utils.py: partial updates.
-- A pydantic model's `model_fields` is a dict from names to annotations. What
-- `payload.model_dump(exclude_unset=True)` returns is a dict of values, an argument here.
pub mod Laws
pub mod Conforms
use platform_backend.Prelude.{
  ℕ, String, ◌≡◌, ◌↔◌, refl, arith, eq_iff, Bool, true, false, not, ◌&&◌, ◌||◌, Option, none, some,
  List, [], ◌∷◌, Eq, ◌==◌, nat_eq, string_eq, if◌then◌else◌, contains, select, nat_beq_iff,
}
use platform_backend.Dict.{Dict}
use platform_backend.Core.Typehints.{Annotation, unwrap_optional}

-- The values that the fields of the contract models hold.
pub data Value : Type 0 where
  null : Value
  str : String → Value
  time : ℕ → Value

abbrev pub is_null : Value → Bool
is_null null = true
is_null (str s) = false
is_null (time t) = false

abbrev value_beq : Value → Value → Bool
value_beq null null = true
value_beq (str s) (str t) = s == t
value_beq (time t) (time u) = t == u
value_beq _ _ = false

pub value_beq_iff : (a b : Value) → (value_beq a b ≡ true) ↔ (a ≡ b)
value_beq_iff null null = ground arith
value_beq_iff null (str t) = ground arith
value_beq_iff null (time u) = ground arith
value_beq_iff (str s) null = ground arith
value_beq_iff (str s) (str t) = ground (arith, eq_iff s t)
value_beq_iff (str s) (time u) = ground arith
value_beq_iff (time t) null = ground arith
value_beq_iff (time t) (str s) = ground arith
value_beq_iff (time t) (time u) = ground arith

instance abbrev pub value_eq : Eq Value
value_eq = record { beq = value_beq; beq_iff = value_beq_iff }

-- The flag of `unwrap_optional(...)[1]`, in front of the names that the rest of the loop finds.
add_nullable : String → Option (Annotation × Bool) → Option (List String) → Option (List String)
add_nullable name none rest = none
add_nullable name (some (inner, flag)) none = none
add_nullable name (some (inner, flag)) (some names) = some (if flag then name ∷ names else names)

-- `{name for name, field in target.model_fields.items() if unwrap_optional(field.annotation)[1]}`
unfoldable pub target_nullable : Dict String Annotation → Option (List String)
unfolding add_nullable unwrap_optional
target_nullable [] = some []
target_nullable ((name, annotation) ∷ fields) =
    add_nullable name (unwrap_optional annotation) (target_nullable fields)

-- `value is not None or key in target_nullable`
abbrev pub kept : List String → String × Value → Bool
kept nullable (key, value) = not (is_null value) || contains key nullable

-- `none` is the StopIteration of `unwrap_optional`.
unfoldable pub partial_update_dict :
    Dict String Value → Dict String Annotation → Option (Dict String Value)
unfolding target_nullable
partial_update_dict dumped target = elim (target_nullable target) [
  | none ↦ none
  | some nullable ↦ some (select (kept nullable) dumped)
]
