-- ===== src/Apps.antt =====
-- apps/uc, apps/flow and apps/bff, main.py: the three applications. `environment` is the `Settings()`
-- that pydantic-settings reads.
pub mod Hops
use platform_backend.Prelude.{String, Bool, true, false, Option, none, some}
use platform_backend.Core.AppFactory.{App, create_basic_app, register_service_error_handlers}

abbrev pub settings_or : {S : Type 0} → S → Option S → S
settings_or environment none = environment
settings_or environment (some settings) = settings

module _ {S R : Type 0} (service_name : S → String) (environment : S) (router : R)
    (settings : Option S) where
  unfoldable pub create_uc_app : App S R
  unfolding create_basic_app
  create_uc_app = create_basic_app service_name (settings_or environment settings) router true

  unfoldable pub create_flow_app : App S R
  unfolding create_basic_app
  create_flow_app = create_basic_app service_name (settings_or environment settings) router true

  unfoldable pub create_bff_app : App S R
  unfolding create_basic_app register_service_error_handlers
  create_bff_app =
      register_service_error_handlers
        (create_basic_app service_name (settings_or environment settings) router false)
