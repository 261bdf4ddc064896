-- ===== src/Lbrp/Discovery.antt =====
-- The endpoints of the gateway and their reload, lbrp/src/discovery.rs. A client is its channel: the
-- address that it is connected to.
pub mod Endpoints
pub mod Reload
mod Tests
use infovulcan.Common.{
  ℕ, zero, suc, ◌+◌, ◌-◌, ◌*◌, ◌/◌, ◌%◌, ◌^◌, ◌≤◌, ◌<◌, ◌≡◌, refl, sym, ap, ◌∙◌, subst, ◌≢◌, ◌↔◌,
  ◌⊎◌, inl, inr, Bool, true, false, not, ◌&&◌, ◌||◌, Option, none, some, List, [], ◌∷◌, ◌++◌, map,
  arith, ltb, leb, ◌==◌, if◌then◌else◌, ltb→lt, lt→ltb, leb→le, le→leb, ==_iff, tests, Bool-cases,
  Option-cases, length, length-append, take, drop, replicate, filter, In, In-filter, of_In-filter,
  All, All-In, Bytes, ascii, beq, beq_refl, eq_of_beq, starts_with, starts_with-append, blt, ble,
  blt_irrefl, blt_trans, blt_total, Error, not_found, corrupt, Result, ok, err, or_err,
  Result-cases,
}
use infovulcan.Shared.Discovery.{ServiceRegistry, resolve_with}

pub record BackendAddrs : Type 0 where
  pub auth : Bytes
  pub admin : Bytes
  pub custodian : Bytes

abbrev pub default_auth : Bytes
default_auth = ascii "http://auth:8082"

abbrev pub default_admin : Bytes
default_admin = ascii "http://admin:8083"

abbrev pub default_custodian : Bytes
default_custodian = ascii "http://custodian-leader:8081"

-- The variables `AUTH_ADDR`, `ADMIN_ADDR` and `CUSTODIAN_ADDR`.
pub record Overrides : Type 0 where
  pub auth : Option Bytes
  pub admin : Option Bytes
  pub custodian : Option Bytes

unfoldable pub from_registry : ServiceRegistry → Overrides → BackendAddrs
from_registry reg env = record {
  auth = resolve_with reg env.auth (ascii "auth") default_auth;
  admin = resolve_with reg env.admin (ascii "admin") default_admin;
  custodian = resolve_with reg env.custodian (ascii "custodian") default_custodian;
}

-- The derived equality.
unfoldable pub same_addrs : BackendAddrs → BackendAddrs → Bool
same_addrs a b = beq a.auth b.auth && beq a.admin b.admin && beq a.custodian b.custodian

-- The channels of the clients.
pub record ReloadableClients : Type 0 where
  pub auth : Bytes
  pub admin : Bytes
  pub custodian : Bytes

-- Whether each `reconnect` succeeds; one that fails keeps the old channel.
pub record Reconnects : Type 0 where
  pub auth : Bool
  pub admin : Bool
  pub custodian : Bool

-- One client: redirected if its endpoint changed and it reconnects.
abbrev pub redirect : (current next channel : Bytes) → (reconnects : Bool) → Bytes
redirect current next channel reconnects =
    if not (beq current next) && reconnects then next else channel

abbrev pub changed_name : (current next name : Bytes) → (reconnects : Bool) → List Bytes
changed_name current next name reconnects =
    if not (beq current next) && reconnects then name ∷ [] else []

-- The names of the services redirected, and the clients.
unfoldable pub apply_changes :
    (current next : BackendAddrs) → Reconnects → ReloadableClients → List Bytes × ReloadableClients
apply_changes current next reconnects clients = (
  changed_name current.auth next.auth (ascii "auth") reconnects.auth
      ++ changed_name current.admin next.admin (ascii "admin") reconnects.admin
      ++ changed_name current.custodian next.custodian (ascii "custodian") reconnects.custodian,
  record {
    auth = redirect current.auth next.auth clients.auth reconnects.auth;
    admin = redirect current.admin next.admin clients.admin reconnects.admin;
    custodian = redirect current.custodian next.custodian clients.custodian reconnects.custodian;
  },
)

-- What one tick reads: the registry, none when the file cannot be read or parsed, the environment,
-- and the outcome of the reconnections.
pub record Tick : Type 0 where
  pub loaded : Option ServiceRegistry
  pub env : Overrides
  pub reconnects : Reconnects

unfoldable pub reload_once :
    Tick → BackendAddrs → ReloadableClients → BackendAddrs × ReloadableClients
reload_once tick current clients = elim tick.loaded [
  | none ↦ (current, clients)
  | some reg ↦
      let next = from_registry reg tick.env in
      if same_addrs next current
      then (current, clients)
      else (next, (apply_changes current next tick.reconnects clients).1)
]

-- The ticks of `spawn_reloader`, one after the other.
unfoldable pub spawn_reloader :
    List Tick → BackendAddrs → ReloadableClients → BackendAddrs × ReloadableClients
spawn_reloader [] current clients = (current, clients)
spawn_reloader (tick ∷ ticks) current clients =
    let after = reload_once tick current clients in spawn_reloader ticks after.0 after.1
