-- ===== src/Mock/Key.antt =====
-- packages/test-utils/src/novon_test_utils/mock_router.py: the key of a route, and its equality.
use platform_backend.Prelude.{
  ℕ, String, ◌≡◌, refl, ◌↔◌, Bool, true, false, ◌&&◌, Option, none, some, Eq, ◌==◌, nat_beq, nat_eq,
  string_eq, eq_iff, nat_beq_iff, upper, arith,
}

-- The components of a URL that routes match on.
pub record UrlParts : Type 0 where
  pub scheme : String
  pub host : String
  pub port : Option ℕ
  pub path : String

pub record RouteKey : Type 0 where
  pub method : String
  pub parts : UrlParts

pub port_beq : Option ℕ → Option ℕ → Bool
port_beq none none = true
port_beq none (some n) = false
port_beq (some m) none = false
port_beq (some m) (some n) = nat_beq m n

pub port_beq_iff : (a b : Option ℕ) → (port_beq a b ≡ true) ↔ (a ≡ b)
unfolding port_beq
port_beq_iff none none = ((λ _. refl), λ _. refl)
port_beq_iff none (some n) = ground arith
port_beq_iff (some m) none = ground arith
port_beq_iff (some m) (some n) = ground (arith, nat_beq_iff m n)

pub parts_beq : UrlParts → UrlParts → Bool
unfolding port_beq
parts_beq a b =
    (a.scheme == b.scheme && a.host == b.host) && (port_beq a.port b.port && a.path == b.path)

pub key_beq : RouteKey → RouteKey → Bool
unfolding parts_beq
key_beq a b = a.method == b.method && parts_beq a.parts b.parts

pub parts_beq_iff : (a b : UrlParts) → (parts_beq a b ≡ true) ↔ (a ≡ b)
unfolding parts_beq
parts_beq_iff a b = ground (
  arith,
  eq_iff a.scheme b.scheme,
  eq_iff a.host b.host,
  port_beq_iff a.port b.port,
  eq_iff a.path b.path,
)

pub key_beq_iff : (a b : RouteKey) → (key_beq a b ≡ true) ↔ (a ≡ b)
unfolding key_beq
key_beq_iff a b = ground (arith, eq_iff a.method b.method, parts_beq_iff a.parts b.parts)

instance abbrev pub key_eq : Eq RouteKey
key_eq = record { beq = key_beq; beq_iff = key_beq_iff }

-- `_route_key`
unfoldable pub route_key : (String → UrlParts) → String → String → RouteKey
unfolding upper
route_key url method text = record { method = upper method; parts = url text }
