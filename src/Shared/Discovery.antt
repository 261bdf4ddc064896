-- ===== src/Shared/Discovery.antt =====
-- The registry of services in shared/src/discovery.rs: endpoints by name.
use infovulcan.Common.{ℕ, not, Option, none, some, List, [], ◌∷◌, if◌then◌else◌, length, Bytes, beq}
use infovulcan.Common.Text.{trim, is_empty}

-- The entries of the map, each name once.
pub record ServiceRegistry : Type 0 where
  pub services : List (Bytes × Bytes)

unfoldable pub lookup : Bytes → List (Bytes × Bytes) → Option Bytes
lookup name [] = none
lookup name ((k, v) ∷ rest) = if beq k name then some v else lookup name rest

unfoldable pub get : ServiceRegistry → Bytes → Option Bytes
get registry service = lookup service registry.services

unfoldable pub len : ServiceRegistry → ℕ
len registry = length registry.services

abbrev or_default : Option Bytes → Bytes → Bytes
or_default none d = d
or_default (some v) d = v

unfoldable pub resolve_with : ServiceRegistry → Option Bytes → Bytes → Bytes → Bytes
resolve_with registry none service default = or_default (get registry service) default
resolve_with registry (some value) service default =
    if not (is_empty (trim value)) then value else or_default (get registry service) default
