-- ===== src/Lbrp/Discovery/Tests.antt =====
-- A registry that moves the authentication service, lbrp/src/discovery.rs.
use infovulcan.Common.{◌≡◌, refl, inr, Bool, true, false, none, some, [], ◌∷◌, ascii, beq}
use infovulcan.Shared.Discovery.{ServiceRegistry, get, lookup, resolve_with}
use infovulcan.Lbrp.Discovery.{
  BackendAddrs, Overrides, ReloadableClients, Tick, default_auth, default_admin, default_custodian,
  from_registry, spawn_reloader,
}
use infovulcan.Lbrp.Discovery.Endpoints.{Resolves}
use infovulcan.Lbrp.Discovery.Reload.{IsSynced, resolved, spawn_reloader_lem, spawn_reloader_lost}

abbrev start : BackendAddrs
start = record { auth = default_auth; admin = default_admin; custodian = default_custodian }

abbrev clients : ReloadableClients
clients = record { auth = default_auth; admin = default_admin; custodian = default_custodian }

abbrev no_overrides : Overrides
no_overrides = record { auth = none; admin = none; custodian = none }

abbrev moved : ServiceRegistry
moved = record { services = (ascii "auth", ascii "http://other") ∷ [] }

abbrev tick : (reconnects : Bool) → Tick
tick r = record {
  loaded = some moved;
  env = no_overrides;
  reconnects = record { auth = r; admin = r; custodian = r };
}

spawn_reloader_lem_example :
    ((spawn_reloader (tick true ∷ []) start clients).0 ≡ resolved (tick true ∷ []) start)
    × IsSynced (resolved (tick true ∷ []) start) (spawn_reloader (tick true ∷ []) start clients).1
    × ((reg : ServiceRegistry) (env : Overrides) → Resolves reg env (from_registry reg env))
spawn_reloader_lem_example =
    spawn_reloader_lem (tick true ∷ []) start clients (refl, refl, refl) ((refl, refl, refl), tt)

spawn_reloader_lost_example :
    ((spawn_reloader (tick false ∷ tick true ∷ []) start clients).0
      ≡ from_registry moved no_overrides)
    × ((spawn_reloader (tick false ∷ tick true ∷ []) start clients).1.auth ≡ default_auth)
unfolding from_registry resolve_with get lookup beq
spawn_reloader_lost_example =
    spawn_reloader_lost (tick false) (tick true ∷ []) moved start clients (refl, refl, refl) refl
      refl refl (inr (moved, refl, refl), tt)
