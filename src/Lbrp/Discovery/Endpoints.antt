-- ===== src/Lbrp/Discovery/Endpoints.antt =====
-- Where an endpoint of lbrp/src/discovery.rs comes from: the environment, the registry or a default.
use infovulcan.Common.{
  ◌≡◌, refl, ◌⊎◌, inl, inr, true, false, Option, none, some, arith, Bool-cases, Option-cases, Bytes,
  ascii,
}
use infovulcan.Common.Text.{trim, is_empty}
use infovulcan.Shared.Discovery.{ServiceRegistry, get, resolve_with}
use infovulcan.Lbrp.Discovery.{BackendAddrs, Overrides, from_registry}

-- An override that is not blank, or else the entry of the registry, or else the default.
abbrev pub Endpoint : ServiceRegistry → Option Bytes → (service default e : Bytes) → Type 0
Endpoint reg override service default e =
    ((v : Bytes) × (override ≡ some v) × (is_empty (trim v) ≡ false) × (e ≡ v))
    ⊎ (((v : Bytes) → override ≡ some v → is_empty (trim v) ≡ true)
        × ((get reg service ≡ some e) ⊎ ((get reg service ≡ none) × (e ≡ default))))

abbrev pub Resolves : ServiceRegistry → Overrides → BackendAddrs → Type 0
Resolves reg env addrs =
    Endpoint reg env.auth (ascii "auth") (ascii "http://auth:8082") addrs.auth
    × Endpoint reg env.admin (ascii "admin") (ascii "http://admin:8083") addrs.admin
    × Endpoint reg env.custodian (ascii "custodian") (ascii "http://custodian-leader:8081")
        addrs.custodian

registered :
    (reg : ServiceRegistry) (override : Option Bytes) (service default e : Bytes)
    → ((v : Bytes) → get reg service ≡ some v → e ≡ v)
    → (get reg service ≡ none → e ≡ default)
    → (get reg service ≡ some e) ⊎ ((get reg service ≡ none) × (e ≡ default))
registered reg override service default e f g = elim (Option-cases (get reg service)) [
  | inl h ↦ inr (h, g h)
  | inr (v, h) ↦ inl (rw (f v h) h)
]

resolve_with-Endpoint :
    (reg : ServiceRegistry) (override : Option Bytes) (service default : Bytes)
    → Endpoint reg override service default (resolve_with reg override service default)
unfolding resolve_with
resolve_with-Endpoint reg none service default = inr (
  λ v e. absurd (ground (arith, e)),
  registered reg none service default (resolve_with reg none service default)
      (λ v h. rw (resolve_with, h) refl) (λ h. rw (resolve_with, h) refl),
)
resolve_with-Endpoint reg (some v) service default = elim (Bool-cases (is_empty (trim v))) [
  | inl b ↦ inr (
    λ u e. ground (arith, b, e),
    registered reg (some v) service default (resolve_with reg (some v) service default)
        (λ v h. rw (resolve_with, b, h) refl) (λ h. rw (resolve_with, b, h) refl),
  )
  | inr b ↦ inl (v, refl, b, rw (resolve_with, b) refl)
]

pub from_registry-Resolves :
    (reg : ServiceRegistry) (env : Overrides) → Resolves reg env (from_registry reg env)
unfolding from_registry
from_registry-Resolves reg env = (
  resolve_with-Endpoint reg env.auth (ascii "auth") (ascii "http://auth:8082"),
  resolve_with-Endpoint reg env.admin (ascii "admin") (ascii "http://admin:8083"),
  resolve_with-Endpoint reg env.custodian (ascii "custodian")
      (ascii "http://custodian-leader:8081"),
)
