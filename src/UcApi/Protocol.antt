-- ===== src/UcApi/Protocol.antt =====
-- packages/uc-api/src/novon/uc_api/protocol.py: the interface of the UC service. `A` is the result of a
-- call that may raise, and `W` the state of the world outside.
use platform_backend.Prelude.{String, Option}
use platform_backend.Dict.{Dict}
use platform_backend.Core.ModelUtils.{Value}
use platform_backend.Core.Context.{RequestContext}
use platform_backend.UcApi.{UserCreate}

-- An update payload is the dict of the fields that are set.
pub record UcApi (W A : Type 0) : Type 0 where
  pub get_user : (user_id : String) (ctx : Option RequestContext) → W → A × W
  pub get_user_by_username : (username : String) (ctx : Option RequestContext) → W → A × W
  pub list_users : (ctx : Option RequestContext) → W → A × W
  pub create_user : (payload : UserCreate) (ctx : Option RequestContext) → W → A × W
  pub update_user :
      (user_id : String) (payload : Dict String Value) (ctx : Option RequestContext) → W → A × W
  pub delete_user : (user_id : String) (ctx : Option RequestContext) → W → A × W
