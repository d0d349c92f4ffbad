-- ===== src/Tests/Flows.antt =====
-- The flow store, partial updates and annotations at concrete inputs.
use platform_backend.Prelude.{String, ◌≡◌, ◌≢◌, refl, some, [], ◌∷◌, string_eq, arith}
use platform_backend.Dict.{Dict, get, put, keys}
use platform_backend.Dict.Laws.{IsDistinct}
use platform_backend.Core.ModelUtils.{Value, null, str, time, partial_update_dict}
use platform_backend.Core.ModelUtils.Laws.{IsModel, is_nullable, keep, get-partial_update_dict}
use platform_backend.Core.ModelUtils.Conforms.{ModelCopy, overlay, IsDumped, conforms}
use platform_backend.UcApi.{or_none, str_type}
use platform_backend.FlowApi.{
  FlowResponse, FlowField, FlowCreate, field_name, attr, flow_update_fields, flow_response_fields,
}
use platform_backend.Uc.{ok}
use platform_backend.Flow.{Store, get_flow, create_flow, update_flow, new_flow}
use platform_backend.Flow.Invariant.{IsConsistent}
use platform_backend.Flow.Update.{given}
use platform_backend.Flow.Behaviour.{
  Reach, here, next, creates, Reach-IsConsistent_of_flows, update_flow-updates,
}

pub overlaid : FlowResponse → Dict String Value → FlowResponse
overlaid m u = record {
  id = overlay (get "id" u) m.id;
  name = overlay (get "name" u) m.name;
  description = overlay (get "description" u) m.description;
  status = overlay (get "status" u) m.status;
  created_at = overlay (get "created_at" u) m.created_at;
  updated_at = overlay (get "updated_at" u) m.updated_at;
}

pub attr-overlaid :
    (m : FlowResponse) (u : Dict String Value) (f : FlowField)
    → attr f (overlaid m u) ≡ overlay (get (field_name f) u) (attr f m)
unfolding overlaid
attr-overlaid m u FlowField.id = refl
attr-overlaid m u f = refl

-- A `model_copy` that does what pydantic documents.
abbrev pub copying : ModelCopy FlowResponse FlowField field_name attr
copying = record { model_copy = overlaid; attr-model_copy = attr-overlaid }

abbrev pub review : FlowCreate
review = record { name = "review"; description = some "two eyes" }

abbrev pub stored : Store
stored = ("flow_1", new_flow review 1 "1") ∷ []

abbrev pub clearing : Dict String Value
clearing = ("name", null) ∷ ("description", null) ∷ ("status", str "done") ∷ []

pub clearing-IsDumped : IsDumped flow_update_fields clearing
unfolding get keys conforms
clearing-IsDumped = record {
  distinct = (refl, (refl, (refl, tt)));
  fits = λ key v h. (or_none str_type, ground arith, ground arith);
}

update_runs :
    (update_flow copying "flow_1" clearing 5 stored).0
    ≡ ok (record (new_flow review 1 "1") {
      description = null;
      status = str "done";
      updated_at = time 5;
    })
unfolding update_flow partial_update_dict get put overlaid
update_runs = refl

pub Reach-stored : Reach copying [] stored
unfolding create_flow put
Reach-stored = next here (creates review 1 "1" refl)

review_found : get_flow "flow_1" stored ≡ ok (new_flow review 1 "1")
unfolding get_flow get
review_found = refl

update_flow-updates_example :
    (updated : FlowResponse) × ((update_flow copying "flow_1" clearing 5 stored).0 ≡ ok updated)
    × (get_flow "flow_1" (update_flow copying "flow_1" clearing 5 stored).1 ≡ ok updated)
    × (updated.updated_at ≡ time 5)
    × ((f : FlowField)
        → field_name f ≢ "updated_at"
        → attr f updated ≡ given f (get (field_name f) clearing) (attr f (new_flow review 1 "1")))
    × ((id : String)
        → "flow_1" ≢ id
        → get_flow id (update_flow copying "flow_1" clearing 5 stored).1 ≡ get_flow id stored)
update_flow-updates_example =
    update_flow-updates copying "flow_1" clearing 5 stored (new_flow review 1 "1") clearing-IsDumped
      review_found

flow_fields-IsModel : IsModel flow_response_fields
flow_fields-IsModel = (tt, (tt, (refl, (tt, (tt, (tt, tt))))))

flow_fields-IsDistinct : IsDistinct (keys flow_response_fields)
unfolding keys
flow_fields-IsDistinct = (refl, (refl, (refl, (refl, (refl, (refl, tt))))))

get-partial_update_dict_example :
    (update : Dict String Value) × (partial_update_dict clearing flow_response_fields ≡ some update)
    × ((key : String)
        → get key update ≡ keep (is_nullable key flow_response_fields) (get key clearing))
get-partial_update_dict_example =
    get-partial_update_dict clearing flow_response_fields clearing-IsDumped.distinct
      flow_fields-IsModel flow_fields-IsDistinct

stored-IsConsistent : IsConsistent stored
stored-IsConsistent = Reach-IsConsistent_of_flows copying stored Reach-stored
