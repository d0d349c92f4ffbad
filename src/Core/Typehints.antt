-- ===== src/Core/Typehints.antt =====
-- packages/core/src/novon/core/http/typehints.py: type annotations as values.
-- An annotation is `None`, a class by its name, `list[X]`, or a union with its arguments in the
-- order of `typing.get_args`. `next` over no member raises StopIteration, here `none`.
pub mod Laws
use platform_backend.Prelude.{
  String, Bool, true, false, not, ◌&&◌, ◌||◌, Option, none, some, if◌then◌else◌,
}

mutual
  pub data Annotation : Type 0 where
    none_type : Annotation
    class_type : String → Annotation
    list_type : Annotation → Annotation
    union : Args → Annotation

  pub data Args : Type 0 where
    nil : Args
    cons : Annotation → Args → Args

abbrev pub is_none_type : Annotation → Bool
is_none_type none_type = true
is_none_type (class_type c) = false
is_none_type (list_type a) = false
is_none_type (union args) = false

-- `NONE_TYPE in typing.get_args(annotation)`
unfoldable pub has_none : Args → Bool
has_none nil = false
has_none (cons a args) = is_none_type a || has_none args

-- `next(a for a in typing.get_args(annotation) if a is not NONE_TYPE)`
unfoldable pub next_not_none : Args → Option Annotation
next_not_none nil = none
next_not_none (cons a args) = if is_none_type a then next_not_none args else some a

abbrev admitting : Option Annotation → Option (Annotation × Bool)
admitting none = none
admitting (some inner) = some (inner, true)

unfoldable pub unwrap_optional : Annotation → Option (Annotation × Bool)
unfolding has_none next_not_none
unwrap_optional none_type = some (none_type, false)
unwrap_optional (class_type c) = some (class_type c, false)
unwrap_optional (list_type a) = some (list_type a, false)
unwrap_optional (union args) =
    if has_none args then admitting (next_not_none args) else some (union args, false)
