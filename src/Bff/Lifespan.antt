-- ===== src/Bff/Lifespan.antt =====
-- apps/bff/src/novon/bff/main.py and settings.py: the clients of the BFF from start-up to shutdown.
-- `aclose` is what closing a client's pool does, or the exception it raises, and the body of `lifespan`
-- is the application between start-up and shutdown. Timeouts are in milliseconds.
pub mod Closing
use platform_backend.Prelude.{ℕ, String, Option, none, some}
use platform_backend.Core.Settings.{ConnectionPoolSettings, default_pool}
use platform_backend.Core.Client.Init.{
  Options, default_options, BaseServiceClient, Built, built, value_error, init,
}
use platform_backend.UcApi.Client.{init_uc}
use platform_backend.FlowApi.Client.{init_flow}

pub record Settings : Type 0 where
  pub service_name : String
  pub flow_api_base_url : String
  pub uc_api_base_url : String
  pub flow_timeout : ℕ
  pub uc_timeout : ℕ
  pub connection_pool : ConnectionPoolSettings

-- `Settings()`, where the environment overrides nothing.
abbrev pub default_settings : Settings
default_settings = record {
  service_name = "novon-bff";
  flow_api_base_url = "http://127.0.0.1:8002";
  uc_api_base_url = "http://127.0.0.1:8001";
  flow_timeout = 30000;
  uc_timeout = 10000;
  connection_pool = default_pool;
}

pub record AppClients (T : Type 0) : Type 0 where
  pub flow : BaseServiceClient T
  pub uc : BaseServiceClient T

-- `request.app.state.clients.flow` and `.uc`, from the clients that `lifespan` stores there.
abbrev pub get_flow_client : {T : Type 0} → AppClients T → BaseServiceClient T
get_flow_client clients = clients.flow

abbrev pub get_uc_client : {T : Type 0} → AppClients T → BaseServiceClient T
get_uc_client clients = clients.uc

abbrev pub with_timeout_and_pool : {T : Type 0} → ℕ → ConnectionPoolSettings → Options T
with_timeout_and_pool timeout pool = record default_options { timeout = timeout; pool = some pool }

-- How `lifespan` ends; `not_started` is the ValueError of a constructor.
pub data Ended (E : Type 0) : Type 0 where
  shut_down : Ended E
  raised : E → Ended E
  not_started : Ended E

abbrev pub ended : {E : Type 0} → Option E → Ended E
ended none = shut_down
ended (some e) = raised e

-- An exception of a close takes the place of the one under way.
abbrev pub after_uc : {W E : Type 0} → Option E → Option E × W → Ended E × W
after_uc outcome (none, w) = (ended outcome, w)
after_uc outcome (some e, w) = (raised e, w)

module _ {T W E : Type 0} (aclose : BaseServiceClient T → W → Option E × W) where
  abbrev pub after_flow : BaseServiceClient T → Option E → Option E × W → Ended E × W
  after_flow uc outcome (none, w) = after_uc outcome (aclose uc w)
  after_flow uc outcome (some e, w) = (raised e, w)

  abbrev pub run_app : AppClients T → (AppClients T → W → Option E × W) → W → Ended E × W
  run_app clients app w =
      let (outcome, w') = app clients w in after_flow clients.uc outcome (aclose clients.flow w')

  abbrev pub start : Built T → Built T → (AppClients T → W → Option E × W) → W → Ended E × W
  start (built flow) (built uc) app w = run_app (record { flow = flow; uc = uc }) app w
  start (built flow) value_error app w = (not_started, w)
  start value_error uc app w = (not_started, w)

  unfoldable pub lifespan : Settings → (AppClients T → W → Option E × W) → W → Ended E × W
  unfolding init
  lifespan settings app w =
      start
        (init_flow settings.flow_api_base_url
          (with_timeout_and_pool settings.flow_timeout settings.connection_pool))
        (init_uc settings.uc_api_base_url
          (with_timeout_and_pool settings.uc_timeout settings.connection_pool))
        app w
