-- ===== src/FlowApi/Protocol.antt =====
-- packages/flow-api/src/novon/flow_api/protocol.py: the interface of the Flow service. `A` is the result
-- of a call that may raise, and `W` the state of the world outside.
use platform_backend.Prelude.{String, Option}
use platform_backend.Dict.{Dict}
use platform_backend.Core.ModelUtils.{Value}
use platform_backend.Core.Context.{RequestContext}
use platform_backend.FlowApi.{FlowCreate}

-- An update payload is the dict of the fields that are set.
pub record FlowApi (W A : Type 0) : Type 0 where
  pub get_flow : (flow_id : String) (ctx : Option RequestContext) → W → A × W
  pub list_flows : (ctx : Option RequestContext) → W → A × W
  pub create_flow : (payload : FlowCreate) (ctx : Option RequestContext) → W → A × W
  pub update_flow :
      (flow_id : String) (payload : Dict String Value) (ctx : Option RequestContext) → W → A × W
  pub delete_flow : (flow_id : String) (ctx : Option RequestContext) → W → A × W
