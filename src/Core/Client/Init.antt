-- ===== src/Core/Client/Init.antt =====
-- packages/core/src/novon/core/http/base_client.py: `BaseServiceClient.__init__` and `aclose`. httpx2
-- is an argument: `T` is the type of a transport that a caller passes. Times are in milliseconds.
use platform_backend.Prelude.{ℕ, String, Bool, true, ◌&&◌, ◌||◌, Option, none, some, if◌then◌else◌}
use platform_backend.Dict.{is_some}
use platform_backend.Core.Settings.{ConnectionPoolSettings, default_pool}
use platform_backend.Core.Client.Request.{ServiceClient}

-- The keyword arguments, with their defaults in `default_options`.
pub record Options (T : Type 0) : Type 0 where
  pub timeout : ℕ
  pub max_connections : Option ℕ
  pub max_keepalive_connections : Option ℕ
  pub pool : Option ConnectionPoolSettings
  pub max_retries : ℕ
  pub retry_min_delay : ℕ
  pub retry_max_delay : ℕ
  pub transport : Option T

abbrev pub default_options : {T : Type 0} → Options T
default_options = record {
  timeout = 10000;
  max_connections = none;
  max_keepalive_connections = none;
  pool = none;
  max_retries = 3;
  retry_min_delay = 100;
  retry_max_delay = 5000;
  transport = none;
}

-- `httpx2.AsyncHTTPTransport(trust_env=..., limits=...)`, or the transport that was passed.
pub data Transport (T : Type 0) : Type 0 where
  passed : T → Transport T
  http : (trust_env : Bool) (limits : ConnectionPoolSettings) → Transport T

-- The arguments of `httpx2.AsyncClient`; its limits are those of a pool.
pub record AsyncClient (T : Type 0) : Type 0 where
  pub base_url : String
  pub timeout : ℕ
  pub transport : Transport T
  pub limits : ConnectionPoolSettings

pub record BaseServiceClient (T : Type 0) : Type 0 where
  pub settings : ServiceClient
  pub client : AsyncClient T

pub data Built (T : Type 0) : Type 0 where
  built : BaseServiceClient T → Built T
  value_error : Built T

abbrev pub pool_or_default : Option ConnectionPoolSettings → ConnectionPoolSettings
pool_or_default none = default_pool
pool_or_default (some pool) = pool

-- `replace(pool, max_connections=...)`, where it is given.
abbrev pub with_max_connections : Option ℕ → ConnectionPoolSettings → ConnectionPoolSettings
with_max_connections none pool = pool
with_max_connections (some n) pool = record pool { max_connections = n }

abbrev pub with_max_keepalive : Option ℕ → ConnectionPoolSettings → ConnectionPoolSettings
with_max_keepalive none pool = pool
with_max_keepalive (some n) pool = record pool { max_keepalive_connections = n }

module _ {T : Type 0} where
  abbrev pub is_ambiguous : Options T → Bool
  is_ambiguous options =
      is_some options.pool
      && (is_some options.max_connections || is_some options.max_keepalive_connections)

  abbrev pub resolved_pool : Options T → ConnectionPoolSettings
  resolved_pool options =
      with_max_keepalive options.max_keepalive_connections
        (with_max_connections options.max_connections (pool_or_default options.pool))

  abbrev pub transport_or_http : ConnectionPoolSettings → Option T → Transport T
  transport_or_http limits none = http true limits
  transport_or_http limits (some transport) = passed transport

  unfoldable pub init : (base_url service_name : String) → Options T → Built T
  init base_url service_name options =
      if is_ambiguous options
      then value_error
      else built (record {
        settings = record {
          service_name = service_name;
          max_retries = options.max_retries;
          retry_min_delay = options.retry_min_delay;
          retry_max_delay = options.retry_max_delay;
        };
        client = record {
          base_url = base_url;
          timeout = options.timeout;
          transport = transport_or_http (resolved_pool options) options.transport;
          limits = resolved_pool options;
        };
      })
