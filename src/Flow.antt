-- ===== src/Flow.antt =====
-- apps/flow/src/novon/flow/api/routes.py: the flow store and the routes on it.
-- The routes that look before they write hold the lock from the look to the write, and creation
-- writes once under it, so each is one step on the store. `now` is `datetime.now(UTC)` and `uuid`
-- the text of `uuid4()`; an update payload enters as `payload.model_dump(exclude_unset=True)`.
pub mod Invariant
pub mod Update
pub mod Behaviour
pub mod Sections
pub mod Concurrent
pub mod Typed
use platform_backend.Prelude.{ℕ, String, ◌&◌, Option, none, some, List, [], ◌∷◌, string_eq}
use platform_backend.Auth.{get_current_user}
use platform_backend.Dict.{Dict, get, put, pop, values}
use platform_backend.Core.ModelUtils.{Value, null, str, time, partial_update_dict}
use platform_backend.Core.ModelUtils.Conforms.{ModelCopy}
use platform_backend.FlowApi.{
  FlowResponse, FlowField, field_name, attr, FlowCreate, flow_response_fields,
}
use platform_backend.Uc.{Reply, ok, http_exception, unhandled}

abbrev pub Store : Type 0
Store = Dict String FlowResponse

abbrev pub not_found : {A : Type 0} → Reply A
not_found = http_exception 404 "Flow not found"

unfoldable pub healthz : Dict String String
healthz = ("status", "ok") ∷ []

unfoldable pub me : Dict String String
unfolding get_current_user
me = ("user", get_current_user) ∷ []

unfoldable pub list_flows : Store → Reply (List FlowResponse)
unfolding values
list_flows s = ok (values s)

abbrev pub found : Option FlowResponse → Reply FlowResponse
found none = not_found
found (some flow) = ok flow

unfoldable pub get_flow : String → Store → Reply FlowResponse
get_flow flow_id s = found (get flow_id s)

-- f"flow_{uuid4()}"
abbrev pub flow_id_of : String → String
flow_id_of uuid = "flow_" & uuid

abbrev pub optional_str : Option String → Value
optional_str none = null
optional_str (some s) = str s

abbrev pub new_flow : FlowCreate → ℕ → String → FlowResponse
new_flow payload now uuid = record {
  id = str (flow_id_of uuid);
  name = str payload.name;
  description = optional_str payload.description;
  status = str "created";
  created_at = time now;
  updated_at = time now;
}

unfoldable pub create_flow : FlowCreate → ℕ → String → Store → Reply FlowResponse × Store
create_flow payload now uuid s =
    (ok (new_flow payload now uuid), put (flow_id_of uuid) (new_flow payload now uuid) s)

module _ (pydantic : ModelCopy FlowResponse FlowField field_name attr) where
  abbrev pub updated_flow : FlowResponse → Dict String Value → ℕ → FlowResponse
  updated_flow existing update now =
      pydantic.model_copy existing (put "updated_at" (time now) update)

  abbrev pub update_existing :
      String → FlowResponse → Option (Dict String Value) → ℕ → Store → Reply FlowResponse × Store
  update_existing flow_id existing none now s = (unhandled, s)
  update_existing flow_id existing (some update) now s =
      (ok (updated_flow existing update now), put flow_id (updated_flow existing update now) s)

  abbrev pub update_found :
      String → Option FlowResponse → Dict String Value → ℕ → Store → Reply FlowResponse × Store
  update_found flow_id none dumped now s = (not_found, s)
  update_found flow_id (some existing) dumped now s =
      update_existing flow_id existing (partial_update_dict dumped flow_response_fields) now s

  unfoldable pub update_flow : String → Dict String Value → ℕ → Store → Reply FlowResponse × Store
  update_flow flow_id dumped now s = update_found flow_id (get flow_id s) dumped now s

abbrev pub delete_found : String → Option FlowResponse → Store → Reply (Unit {0}) × Store
delete_found flow_id none s = (not_found, s)
delete_found flow_id (some flow) s = (ok tt, pop flow_id s)

unfoldable pub delete_flow : String → Store → Reply (Unit {0}) × Store
delete_flow flow_id s = delete_found flow_id (get flow_id s) s
