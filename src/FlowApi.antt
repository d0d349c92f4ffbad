-- ===== src/FlowApi.antt =====
-- packages/flow-api/src/novon/flow_api/models.py: the contract of the Flow service.
-- A model is a record of values, since `model_copy` stores what it is given; its fields and their
-- annotations are `model_fields`.
pub mod Protocol
pub mod Client
use platform_backend.Prelude.{String, Option, [], ◌∷◌}
use platform_backend.Dict.{Dict}
use platform_backend.Core.Typehints.{Annotation}
use platform_backend.Core.ModelUtils.{Value}
use platform_backend.UcApi.{str_type, datetime_type, or_none}

pub record FlowResponse : Type 0 where
  pub id : Value
  pub name : Value
  pub description : Value
  pub status : Value
  pub created_at : Value
  pub updated_at : Value

pub data FlowField : Type 0 where
  id name description status created_at updated_at : FlowField

abbrev pub field_name : FlowField → String
field_name FlowField.id = "id"
field_name FlowField.name = "name"
field_name FlowField.description = "description"
field_name FlowField.status = "status"
field_name FlowField.created_at = "created_at"
field_name FlowField.updated_at = "updated_at"

abbrev pub attr : FlowField → FlowResponse → Value
attr FlowField.id f = f.id
attr FlowField.name f = f.name
attr FlowField.description f = f.description
attr FlowField.status f = f.status
attr FlowField.created_at f = f.created_at
attr FlowField.updated_at f = f.updated_at

-- `FlowResponse.model_fields`
abbrev pub flow_response_fields : Dict String Annotation
flow_response_fields =
    ("id", str_type)
    ∷ ("name", str_type)
    ∷ ("description", or_none str_type)
    ∷ ("status", str_type)
    ∷ ("created_at", datetime_type)
    ∷ ("updated_at", datetime_type)
    ∷ []

pub record FlowCreate : Type 0 where
  pub name : String
  pub description : Option String

-- `FlowUpdate.model_fields`
abbrev pub flow_update_fields : Dict String Annotation
flow_update_fields =
    ("name", or_none str_type)
    ∷ ("description", or_none str_type)
    ∷ ("status", or_none str_type)
    ∷ []
