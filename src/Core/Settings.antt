-- ===== src/Core/Settings.antt =====
-- packages/core/src/novon/core/settings.py: the limits of a connection pool.
use platform_backend.Prelude.{ℕ, String}

pub record ConnectionPoolSettings : Type 0 where
  pub max_connections : ℕ
  pub max_keepalive_connections : ℕ

-- `ConnectionPoolSettings()`
abbrev pub default_pool : ConnectionPoolSettings
default_pool = record { max_connections = 100; max_keepalive_connections = 20 }

-- The `Settings` of the UC and the Flow service, with the default name of each.
pub record ServiceSettings : Type 0 where
  pub service_name : String

abbrev pub uc_settings : ServiceSettings
uc_settings = record { service_name = "novon-uc" }

abbrev pub flow_settings : ServiceSettings
flow_settings = record { service_name = "novon-flow" }
