-- ===== src/Core/Typehints/Laws.antt =====
-- What `unwrap_optional` returns on the annotations that Python can build.
use platform_backend.Prelude.{◌≡◌, refl, Bool, true, false, not, ◌||◌, some, Bool-cases, inl, inr}
use platform_backend.Core.Typehints.{
  Annotation, none_type, class_type, list_type, union, Args, nil, cons, is_none_type, has_none,
  next_not_none, unwrap_optional,
}

abbrev pub some_not_none : Args → Bool
some_not_none nil = false
some_not_none (cons a args) = not (is_none_type a) || some_not_none args

-- A union has two or more distinct members, so one of them is not `None`.
abbrev pub IsUnion : Annotation → Type 0
IsUnion (union args) = some_not_none args ≡ true
IsUnion _ = Unit

-- Whether a value of this annotation may be None by a union.
unfoldable pub admits_none : Annotation → Bool
unfolding has_none
admits_none none_type = false
admits_none (class_type c) = false
admits_none (list_type a) = false
admits_none (union args) = has_none args

next_not_none-some :
    (args : Args)
    → some_not_none args ≡ true
    → (inner : Annotation) × (next_not_none args ≡ some inner) × (is_none_type inner ≡ false)
unfolding next_not_none
next_not_none-some nil h = cc
next_not_none-some (cons none_type args) h = next_not_none-some args h
next_not_none-some (cons (class_type c) args) h = (class_type c, refl, refl)
next_not_none-some (cons (list_type a) args) h = (list_type a, refl, refl)
next_not_none-some (cons (union us) args) h = (union us, refl, refl)

-- `unwrap_optional` returns on every annotation that Python can build: its flag says whether the
-- annotation is a union with None; where it is, the inner type is not None, and where it is not,
-- the annotation passes through unchanged.
pub unwrap_optional-returns :
    (a : Annotation)
    → IsUnion a
    → (inner : Annotation) × (unwrap_optional a ≡ some (inner, admits_none a))
      × (admits_none a ≡ true → is_none_type inner ≡ false)
      × (admits_none a ≡ false → inner ≡ a)
unfolding unwrap_optional admits_none
unwrap_optional-returns none_type h = (none_type, refl, (λ e. cc), λ e. refl)
unwrap_optional-returns (class_type c) h = (class_type c, refl, (λ e. cc), λ e. refl)
unwrap_optional-returns (list_type a) h = (list_type a, refl, (λ e. cc), λ e. refl)
unwrap_optional-returns (union args) h = elim (Bool-cases (has_none args)) [
  | inl with_none ↦
      let (inner, found, plain) = next_not_none-some args h in
      (inner, rw (with_none, found), (λ e. plain), λ e. cc)
  | inr without ↦ (union args, rw without, (λ e. cc), λ e. refl)
]
