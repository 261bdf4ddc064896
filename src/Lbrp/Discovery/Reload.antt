-- ===== src/Lbrp/Discovery/Reload.antt =====
-- What the reload of lbrp/src/discovery.rs keeps and reaches.
use infovulcan.Common.{
  ◌≡◌, refl, sym, ap, ◌∙◌, subst, ◌⊎◌, inl, inr, Bool, true, false, none, some, List, [], ◌∷◌,
  arith, Bool-cases, Option-cases, All, Bytes, beq, beq_refl, eq_of_beq,
}
use infovulcan.Shared.Discovery.{ServiceRegistry}
use infovulcan.Lbrp.Discovery.Endpoints.{Resolves, from_registry-Resolves}
use infovulcan.Lbrp.Discovery.{
  BackendAddrs, Overrides, ReloadableClients, Reconnects, Tick, from_registry, same_addrs,
  apply_changes, reload_once, spawn_reloader, redirect,
}

-- Every client is connected to the endpoint in effect.
abbrev pub IsSynced : BackendAddrs → ReloadableClients → Type 0
IsSynced current clients =
    (clients.auth ≡ current.auth)
    × (clients.admin ≡ current.admin)
    × (clients.custodian ≡ current.custodian)

abbrev pub Reconnected : Reconnects → Type 0
Reconnected r = (r.auth ≡ true) × (r.admin ≡ true) × (r.custodian ≡ true)

-- Every tick that reads a registry can reconnect.
abbrev pub AllReconnect : List Tick → Type 0
AllReconnect ticks = All (λ t. Reconnected t.reconnects) ticks

-- The endpoints of the last registry read, or those at the start.
unfoldable pub resolved : List Tick → BackendAddrs → BackendAddrs
resolved [] current = current
resolved (t ∷ ts) current = elim t.loaded [
  | none ↦ resolved ts current
  | some reg ↦ resolved ts (from_registry reg t.env)
]

redirect_lem :
    (current next channel : Bytes) (r : Bool)
    → channel ≡ current
    → r ≡ true
    → redirect current next channel r ≡ next
redirect_lem current next channel r e h = ground (arith, e, h, eq_of_beq current next)

same_addrs_lem : (a b : BackendAddrs) → same_addrs a b ≡ true → a ≡ b
unfolding same_addrs
same_addrs_lem a b h = ground (
  arith,
  h,
  eq_of_beq a.auth b.auth,
  eq_of_beq a.admin b.admin,
  eq_of_beq a.custodian b.custodian,
)

reload_once_lem :
    (t : Tick) (current : BackendAddrs) (clients : ReloadableClients)
    → IsSynced current clients
    → Reconnected t.reconnects
    → ((reload_once t current clients).0 ≡ resolved (t ∷ []) current)
      × IsSynced (reload_once t current clients).0 (reload_once t current clients).1
unfolding reload_once resolved apply_changes
reload_once_lem t current clients s r = elim (Option-cases t.loaded) [
  | inl e ↦ rw e (refl, s)
  | inr (reg, e) ↦
      let next = from_registry reg t.env in
      elim (Bool-cases (same_addrs next current)) [
        | inl h ↦ rw (e, h) (sym (same_addrs_lem next current h), s)
        | inr h ↦
            rw (e, h)
              (
                refl,
                (
                  redirect_lem current.auth next.auth clients.auth t.reconnects.auth s.0 r.0,
                  redirect_lem current.admin next.admin clients.admin t.reconnects.admin s.1 r.1,
                  redirect_lem current.custodian next.custodian clients.custodian
                      t.reconnects.custodian s.2 r.2,
                ),
              )
      ]
]

resolved-cons :
    (t : Tick) (ts : List Tick) (current : BackendAddrs)
    → resolved ts (resolved (t ∷ []) current) ≡ resolved (t ∷ ts) current
unfolding resolved
resolved-cons t ts current = elim (Option-cases t.loaded) [
  | inl e ↦ rw e refl
  | inr (reg, e) ↦ rw e refl
]

spawn_reloader-resolved :
    (ticks : List Tick) (current : BackendAddrs) (clients : ReloadableClients)
    → IsSynced current clients
    → AllReconnect ticks
    → let after = spawn_reloader ticks current clients in
      (after.0 ≡ resolved ticks current) × IsSynced (resolved ticks current) after.1
unfolding spawn_reloader resolved
spawn_reloader-resolved [] current clients s r = (refl, s)
spawn_reloader-resolved (t ∷ ts) current clients s r =
    let after = reload_once t current clients in
    let (e, synced) = reload_once_lem t current clients s r.0 in
    let (e', s') = spawn_reloader-resolved ts after.0 after.1 synced r.1 in
    let same : resolved ts after.0 ≡ resolved (t ∷ ts) current =
      ap (resolved ts) e ∙ resolved-cons t ts current in
    (e' ∙ same, subst (λ a. IsSynced a (spawn_reloader ts after.0 after.1).1) same s')

-- When every reconnection succeeds, from clients that are connected to the endpoints in effect, the
-- reloader always has in effect the endpoints that the last readable registry resolves to with the
-- overrides of its tick (those at the start if there was none), and the clients are connected to
-- them. A registry resolves each endpoint to the override where it is not blank, or else to its own
-- entry, or else to the default.
pub spawn_reloader_lem :
    (ticks : List Tick) (current : BackendAddrs) (clients : ReloadableClients)
    → IsSynced current clients
    → AllReconnect ticks
    → let after = spawn_reloader ticks current clients in
      (after.0 ≡ resolved ticks current)
      × IsSynced (resolved ticks current) after.1
      × ((reg : ServiceRegistry) (env : Overrides) → Resolves reg env (from_registry reg env))
spawn_reloader_lem ticks current clients s r =
    let (e, synced) = spawn_reloader-resolved ticks current clients s r in
    (e, synced, from_registry-Resolves)

same_addrs_refl : (a : BackendAddrs) → same_addrs a a ≡ true
unfolding same_addrs
same_addrs_refl a = ground (arith, beq_refl a.auth, beq_refl a.admin, beq_refl a.custodian)

-- The tick reads no registry, or one that resolves to the endpoints given.
abbrev pub Reads : BackendAddrs → Tick → Type 0
Reads next t =
    (t.loaded ≡ none)
    ⊎ ((reg : ServiceRegistry) × (t.loaded ≡ some reg) × (from_registry reg t.env ≡ next))

stays :
    (ticks : List Tick) (next : BackendAddrs) (clients : ReloadableClients)
    → All (Reads next) ticks
    → spawn_reloader ticks next clients ≡ (next, clients)
unfolding spawn_reloader reload_once
stays [] next clients h = refl
stays (t ∷ ts) next clients (inl e, h) = rw e (stays ts next clients h)
stays (t ∷ ts) next clients (inr (reg, e, n), h) =
    rw (e, n, same_addrs_refl next) (stays ts next clients h)

reload_once_lost :
    (t : Tick) (reg : ServiceRegistry) (current : BackendAddrs) (clients : ReloadableClients)
    → IsSynced current clients
    → t.loaded ≡ some reg
    → t.reconnects.auth ≡ false
    → beq (from_registry reg t.env).auth current.auth ≡ false
    → let after = reload_once t current clients in
      (after.0 ≡ from_registry reg t.env) × (after.1.auth ≡ current.auth)
unfolding reload_once same_addrs apply_changes
reload_once_lost t reg current clients s e r n = ground (arith, s.0, e, r, n)

-- After a tick whose registry moves the authentication service, and whose reconnection to it fails,
-- the endpoint in effect is the new one but the client stays where it was, whatever the outcome of
-- later reconnections, for as long as the registries read resolve to the same endpoints.
pub spawn_reloader_lost :
    (t : Tick) (ts : List Tick) (reg : ServiceRegistry) (current : BackendAddrs)
    (clients : ReloadableClients)
    → IsSynced current clients
    → t.loaded ≡ some reg
    → t.reconnects.auth ≡ false
    → beq (from_registry reg t.env).auth current.auth ≡ false
    → All (Reads (from_registry reg t.env)) ts
    → let after = spawn_reloader (t ∷ ts) current clients in
      (after.0 ≡ from_registry reg t.env) × (after.1.auth ≡ current.auth)
unfolding spawn_reloader
spawn_reloader_lost t ts reg current clients s e r n h =
    let next = from_registry reg t.env in
    let (moved, kept) = reload_once_lost t reg current clients s e r n in
    let after = reload_once t current clients in
    let still : spawn_reloader ts after.0 after.1 ≡ (next, after.1) =
      subst (λ a. spawn_reloader ts a after.1 ≡ (next, after.1)) (sym moved)
        (stays ts next after.1 h) in
    rw still (refl, kept)
