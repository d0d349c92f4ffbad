-- ===== src/UcApi.antt =====
-- packages/uc-api/src/novon/uc_api/models.py: the contract of the UC service.
-- A model is a record of values, since `model_copy` stores what it is given; its fields and their
-- annotations are `model_fields`.
pub mod Protocol
pub mod Client
use platform_backend.Prelude.{String, [], ◌∷◌}
use platform_backend.Dict.{Dict}
use platform_backend.Core.Typehints.{Annotation, none_type, class_type, union, nil, cons}
use platform_backend.Core.ModelUtils.{Value}

pub record UserResponse : Type 0 where
  pub id : Value
  pub username : Value
  pub email : Value
  pub status : Value
  pub created_at : Value
  pub updated_at : Value

pub data UserField : Type 0 where
  id username email status created_at updated_at : UserField

abbrev pub field_name : UserField → String
field_name UserField.id = "id"
field_name UserField.username = "username"
field_name UserField.email = "email"
field_name UserField.status = "status"
field_name UserField.created_at = "created_at"
field_name UserField.updated_at = "updated_at"

abbrev pub attr : UserField → UserResponse → Value
attr UserField.id u = u.id
attr UserField.username u = u.username
attr UserField.email u = u.email
attr UserField.status u = u.status
attr UserField.created_at u = u.created_at
attr UserField.updated_at u = u.updated_at

abbrev pub str_type : Annotation
str_type = class_type "str"

abbrev pub datetime_type : Annotation
datetime_type = class_type "datetime"

-- `X | None`
abbrev pub or_none : Annotation → Annotation
or_none a = union (cons a (cons none_type nil))

-- `UserResponse.model_fields`
abbrev pub user_response_fields : Dict String Annotation
user_response_fields =
    ("id", str_type)
    ∷ ("username", str_type)
    ∷ ("email", str_type)
    ∷ ("status", str_type)
    ∷ ("created_at", datetime_type)
    ∷ ("updated_at", datetime_type)
    ∷ []

pub record UserCreate : Type 0 where
  pub username : String
  pub email : String
  pub password : String

-- `UserUpdate.model_fields`
abbrev pub user_update_fields : Dict String Annotation
user_update_fields =
    ("username", or_none str_type) ∷ ("email", or_none str_type) ∷ ("status", or_none str_type) ∷ []
