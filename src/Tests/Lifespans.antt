-- ===== src/Tests/Lifespans.antt =====
-- The clients of the BFF from start-up to shutdown, where closing Flow's client raises.
use platform_backend.Prelude.{
  String, ◌≡◌, ◌≢◌, refl, Bool, Bool-cases, inl, inr, true, false, ◌&&◌, Option, none, some, ◌==◌,
  string_eq, beq_self, beq_of_ne, if◌then◌else◌,
}
use platform_backend.Core.Client.Init.{BaseServiceClient}
use platform_backend.Bff.Lifespan.{default_settings, AppClients, ended, lifespan}
use platform_backend.Bff.Lifespan.Closing.{clients_of, lifespan_closes}

-- The world says of each service whether its client is open.
abbrev World : Type 0
World = String → Bool

abbrev Client : Type 0
Client = BaseServiceClient String

is_open : Client → World → Bool
is_open c w = w c.settings.service_name

shut : String → World → World
shut name w = λ other. if name == other then false else w other

aclose : Client → World → Option String × World
aclose c w =
    if c.settings.service_name == "flow"
    then (some "connection reset", w)
    else (none, shut c.settings.service_name w)

aclose_closed : (c : Client) (w : World) → (aclose c w).0 ≡ none → is_open c (aclose c w).1 ≡ false
unfolding aclose is_open shut
aclose_closed c w h = elim (Bool-cases (c.settings.service_name == "flow")) [
  | inl is_flow ↦ cc (rw is_flow at h)
  | inr other ↦ rw (other, beq_self c.settings.service_name) refl
]

aclose_apart :
    (c d : Client) (w : World)
    → c.settings.service_name ≢ d.settings.service_name
    → is_open d (aclose c w).1 ≡ is_open d w
unfolding aclose is_open shut
aclose_apart c d w differ = elim (Bool-cases (c.settings.service_name == "flow")) [
  | inl is_flow ↦ rw is_flow refl
  | inr other ↦ rw (other, beq_of_ne _ _ differ) refl
]

-- The application opens both pools, and then raises.
app : AppClients String → World → Option String × World
app clients w = (some "cancelled", λ name. true)

stays_open :
    is_open
      (clients_of default_settings).uc
      (lifespan aclose default_settings app (λ name. false)).1
    ≡ true
unfolding lifespan aclose is_open app shut
stays_open = refl

lifespan_closes_example :
    ((lifespan aclose default_settings app (λ name. false)).0 ≡ ended (some "connection reset"))
    × (is_open
          (clients_of default_settings).flow
          (lifespan aclose default_settings app (λ name. false)).1
        ≡ (true && is_open (clients_of default_settings).flow (λ name. true)))
    × (is_open
          (clients_of default_settings).uc
          (lifespan aclose default_settings app (λ name. false)).1
        ≡ (true && is_open (clients_of default_settings).uc (λ name. true)))
unfolding aclose app
lifespan_closes_example =
    lifespan_closes aclose is_open (record { closed = aclose_closed; apart = aclose_apart })
      default_settings app (λ name. false) (λ v. refl)
