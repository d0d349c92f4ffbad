-- ===== src/Core/ModelUtils/Laws.antt =====
-- What a partial update holds, and that it fits the stored model.
use platform_backend.Prelude.{
  String, ◌≡◌, refl, arith, Bool, false, not, ◌||◌, Option, none, some, List, [], ◌∷◌, string_eq,
  eq_iff, if◌then◌else◌, contains, select, All,
}
use platform_backend.Dict.{Dict, keys, get}
use platform_backend.Dict.Laws.{IsDistinct, get_of_fresh}
use platform_backend.Core.Typehints.{Annotation}
use platform_backend.Core.Typehints.Laws.{IsUnion, admits_none, unwrap_optional-returns}
use platform_backend.Core.ModelUtils.{Value, is_null, kept, target_nullable, partial_update_dict}

-- Every annotation of the model is one that Python can build.
abbrev pub IsModel : Dict String Annotation → Type 0
IsModel fields = All (λ f. IsUnion f.1) fields

abbrev nullable_of : Option Annotation → Bool
nullable_of none = false
nullable_of (some a) = admits_none a

-- Whether the model has the field and the field may be null.
unfoldable pub is_nullable : String → Dict String Annotation → Bool
unfolding get
is_nullable key target = nullable_of (get key target)

abbrev pub keep : Bool → Option Value → Option Value
keep nullable none = none
keep nullable (some v) = if not (is_null v) || nullable then some v else none

-- `target_nullable` finds each nullable field, and only those.
target_nullable-returns :
    (target : Dict String Annotation)
    → IsModel target
    → IsDistinct (keys target)
    → (names : List String) × (target_nullable target ≡ some names)
      × ((key : String) → contains key names ≡ is_nullable key target)
unfolding target_nullable is_nullable get keys
target_nullable-returns [] h d = ([], refl, λ key. refl)
target_nullable-returns ((name, a) ∷ fields) (ha, h) d =
    let (inner, unwrapped, _, _) = unwrap_optional-returns a ha in
    let (names, found, same) = target_nullable-returns fields h d.1 in
    (
      if admits_none a then name ∷ names else names,
      rw (unwrapped, found),
      λ key.
          ground (arith, same key, eq_iff key name, eq_iff name key, get_of_fresh name fields d.0),
    )

get-select :
    (key : String) (nullable : List String) (d : Dict String Value)
    → IsDistinct (keys d)
    → get key (select (kept nullable) d) ≡ keep (contains key nullable) (get key d)
unfolding get keys
get-select key nullable [] h = refl
get-select key nullable ((k, v) ∷ d) (fresh, h) =
    ground (arith, get-select key nullable d h, get_of_fresh k d fresh, eq_iff k key)

-- For a stored model and a dumped payload with distinct field names, the partial update exists, and
-- under each name it holds what the payload sets there, except a null under a name that is not
-- nullable in the stored model, where it holds nothing.
pub get-partial_update_dict :
    (dumped : Dict String Value) (target : Dict String Annotation)
    → IsDistinct (keys dumped)
    → IsModel target
    → IsDistinct (keys target)
    → (update : Dict String Value) × (partial_update_dict dumped target ≡ some update)
      × ((key : String) → get key update ≡ keep (is_nullable key target) (get key dumped))
unfolding partial_update_dict
get-partial_update_dict dumped target d h dt =
    let (names, found, same) = target_nullable-returns target h dt in
    (
      select (kept names) dumped,
      rw (found, partial_update_dict),
      λ key. rw (get-select key names dumped d, same key),
    )
