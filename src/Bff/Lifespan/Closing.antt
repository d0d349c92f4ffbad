-- ===== src/Bff/Lifespan/Closing.antt =====
-- apps/bff/src/novon/bff/main.py: which clients are closed when `lifespan` ends.
use platform_backend.Prelude.{
  ℕ, String, ◌≡◌, ◌≢◌, refl, sym, ap, ◌∙◌, Bool, true, false, ◌&&◌, Option, none, some, eq_iff,
}
use platform_backend.Dict.{is_some}
use platform_backend.Core.Settings.{ConnectionPoolSettings}
use platform_backend.Core.Client.Init.{BaseServiceClient, http}
use platform_backend.Bff.Lifespan.{Settings, AppClients, ended, after_uc, after_flow, lifespan}

-- A client of the BFF: the pool settings are the limits of its connections and of its transport.
abbrev pub client_of :
    {T : Type 0} → String → String → ℕ → ConnectionPoolSettings → BaseServiceClient T
client_of service_name base_url timeout pool = record {
  settings = record {
    service_name = service_name;
    max_retries = 3;
    retry_min_delay = 100;
    retry_max_delay = 5000;
  };
  client = record {
    base_url = base_url;
    timeout = timeout;
    transport = http true pool;
    limits = pool;
  };
}

abbrev pub clients_of : {T : Type 0} → Settings → AppClients T
clients_of settings = record {
  flow = client_of "flow" settings.flow_api_base_url settings.flow_timeout settings.connection_pool;
  uc = client_of "uc" settings.uc_api_base_url settings.uc_timeout settings.connection_pool;
}

-- Closing a client without an exception closes its pool, and no close touches another client's pool.
pub record Closes {T W E : Type 0} (aclose : BaseServiceClient T → W → Option E × W)
    (is_open : BaseServiceClient T → W → Bool) : Type 0 where
  pub closed :
      (c : BaseServiceClient T) (w : W) → (aclose c w).0 ≡ none → is_open c (aclose c w).1 ≡ false
  pub apart :
      (c d : BaseServiceClient T) (w : W)
      → c.settings.service_name ≢ d.settings.service_name
      → is_open d (aclose c w).1 ≡ is_open d w

abbrev pub first_error : {E : Type 0} → Option E → Option E → Option E
first_error none outcome = outcome
first_error (some e) outcome = some e

module _ {T W E : Type 0} (aclose : BaseServiceClient T → W → Option E × W)
    (is_open : BaseServiceClient T → W → Bool) (closes : Closes aclose is_open) where
  uc_ends :
      (outcome : Option E) (p : Option E × W)
      → p.0 ≡ none
      → after_uc outcome p ≡ (ended outcome, p.1)
  uc_ends outcome (none, w) h = refl
  uc_ends outcome (some e, w) h = cc

  -- From the close of Flow's client, which gave `result`, to the end.
  ends :
      (flow uc : BaseServiceClient T) (outcome : Option E) (v : W) (result : Option E × W)
      → aclose flow v ≡ result
      → flow.settings.service_name ≢ uc.settings.service_name
      → ((v : W) → (aclose uc v).0 ≡ none)
      → ((after_flow aclose uc outcome result).0 ≡ ended (first_error result.0 outcome))
        × (is_open flow (after_flow aclose uc outcome result).1
            ≡ (is_some result.0 && is_open flow result.1))
        × (is_open uc (after_flow aclose uc outcome result).1 ≡ (is_some result.0 && is_open uc v))
  ends flow uc outcome v (some e, v') same differ quiet =
      (refl, refl, sym (ap (λ q. is_open uc q.1) same) ∙ closes.apart flow uc v differ)
  ends flow uc outcome v (none, v') same differ quiet =
      let end = uc_ends outcome (aclose uc v') (quiet v') in
      (
        ap (λ q. q.0) end,
        ap (λ q. is_open flow q.1) end
            ∙ closes.apart uc flow v' (λ h. differ (sym h))
            ∙ sym (ap (λ q. is_open flow q.1) same)
            ∙ closes.closed flow v (ap (λ q. q.0) same),
        ap (λ q. is_open uc q.1) end ∙ closes.closed uc v' (quiet v'),
      )

  -- Let a close that does not raise close its client's pool, and no close touch the pool of another
  -- service's client. Whatever the application does between start-up and shutdown, also where it
  -- raises: if closing the client of UC never raises, it is closed at the end, and so is Flow's,
  -- and `lifespan` ends as the application did, except if closing Flow's client raises, which is
  -- then what `lifespan` raises; the pool of UC is then never closed, and is open exactly if the
  -- application left it open.
  pub lifespan_closes :
      (settings : Settings) (app : AppClients T → W → Option E × W) (w : W)
      → ((v : W) → (aclose (clients_of settings).uc v).0 ≡ none)
      → let (outcome, v) = app (clients_of settings) w in
        let (failure, v') = aclose (clients_of settings).flow v in
        ((lifespan aclose settings app w).0 ≡ ended (first_error failure outcome))
        × (is_open (clients_of settings).flow (lifespan aclose settings app w).1
            ≡ (is_some failure && is_open (clients_of settings).flow v'))
        × (is_open (clients_of settings).uc (lifespan aclose settings app w).1
            ≡ (is_some failure && is_open (clients_of settings).uc v))
  unfolding lifespan
  lifespan_closes settings app w quiet =
      let outcome_of = app (clients_of settings) w in
      ends (clients_of settings).flow (clients_of settings).uc outcome_of.0 outcome_of.1 _ refl
        (λ h. cc ((eq_iff "flow" "uc").1 h)) quiet
