-- ===== src/Core/ModelUtils/Conforms.antt =====
-- The values that pydantic admits under an annotation, and its `model_copy` as an interface.
use platform_backend.Prelude.{
  String, ◌≡◌, refl, Bool, true, false, ◌||◌, ◌==◌, string_eq, Option, none, some,
}
use platform_backend.Dict.{Dict, keys, get}
use platform_backend.Dict.Laws.{IsDistinct}
use platform_backend.Core.Typehints.{
  Annotation, none_type, class_type, list_type, union, Args, nil, cons,
}
use platform_backend.Core.ModelUtils.Laws.{keep}
use platform_backend.Core.ModelUtils.{Value, null, str, time, is_null}

abbrev is_instance : String → Value → Bool
is_instance c null = false
is_instance c (str s) = c == "str"
is_instance c (time t) = c == "datetime"

unfoldable mutual
  pub conforms : Annotation → Value → Bool
  conforms none_type v = is_null v
  conforms (class_type c) v = is_instance c v
  conforms (list_type a) v = false
  conforms (union args) v = conforms_any args v

  pub conforms_any : Args → Value → Bool
  conforms_any nil v = false
  conforms_any (cons a args) v = conforms a v || conforms_any args v

-- What `model_dump(exclude_unset=True)` gives of a payload that pydantic has validated: some of the
-- model's fields, each once, with a value that its annotation admits.
pub record IsDumped (fields : Dict String Annotation) (dumped : Dict String Value) : Type 0 where
  pub distinct : IsDistinct (keys dumped)
  pub fits :
      (key : String) (v : Value)
      → get key dumped ≡ some v
      → (a : Annotation) × (get key fields ≡ some a) × (conforms a v ≡ true)

abbrev pub overlay : Option Value → Value → Value
overlay none old = old
overlay (some new) old = new

-- pydantic's `model_copy(update=...)` on the models `M` with the fields `F`: a field that the update
-- names takes its value unchecked, and each other field is copied.
pub record ModelCopy (M F : Type 0) (name : F → String) (attr : F → M → Value) : Type 0 where
  pub model_copy : M → Dict String Value → M
  pub attr-model_copy :
      (m : M) (update : Dict String Value) (f : F)
      → attr f (model_copy m update) ≡ overlay (get (name f) update) (attr f m)

-- Each attribute of the model holds a value that the field's annotation admits.
abbrev pub IsInstance :
    {M F : Type 0} → Dict String Annotation → (F → String) → (F → M → Value) → M → Type 0
IsInstance {F} fields name attr m =
    (f : F) → (a : Annotation) × (get (name f) fields ≡ some a) × (conforms a (attr f m) ≡ true)

-- A payload's entry for a field that is not nullable: a null counts as an omitted field.
abbrev pub given_text : Option Value → Value → Value
given_text none old = old
given_text (some null) old = old
given_text (some (str s)) old = str s
given_text (some (time t)) old = time t

pub overlay-keep : (o : Option Value) (old : Value) → overlay (keep false o) old ≡ given_text o old
overlay-keep none old = refl
overlay-keep (some null) old = refl
overlay-keep (some (str s)) old = refl
overlay-keep (some (time t)) old = refl
