-- ===== src/Lbrp/Routes/Roles.antt =====
-- The role of a token and the administration of users through lbrp/src/routes.rs.
use infovulcan.Common.{◌≡◌, refl, sym, ap, ◌∙◌, subst, Option, some, ◌++◌, Bytes}
use infovulcan.Common.Int.{pos}
use infovulcan.Common.Outcome.{Outcome, done}
use infovulcan.Kv.{IsStore}
use infovulcan.Shared.User.{User, admin}
use infovulcan.Accounts.Sealed.{HasPair}
use infovulcan.Auth.{Claims}
use infovulcan.Admin.{ProtoUser, UpdateUserRequest, Draws, Admin, update_user}
use infovulcan.Admin.Users.{HoldsUser}
use infovulcan.Admin.Updates.{Finds}
use infovulcan.Admin.Updates.Fields.{Given, given_role}
use infovulcan.Admin.Updates.Edited.{update_user_lem}
use infovulcan.Lbrp.{Status, bearer, from_status}
use infovulcan.Lbrp.Routes.{
  Clients, Reply, ApiRoute, guarded, UpdateUserPayload, user, user_reply, answer,
}
use infovulcan.Lbrp.Routes.App.{app, handle}
use infovulcan.Lbrp.Routes.App
use infovulcan.Lbrp.Routes.Access.{passes}

-- The request for the user of a path.
abbrev pub request_for : (id : Bytes) → UpdateUserPayload → UpdateUserRequest
request_for id payload = record {
  id = id;
  email = payload.email;
  display_name = payload.display_name;
  role = payload.role;
  active = payload.active;
  password = payload.password;
}

module _ {DateTime S : Type 0} (a : Admin DateTime S) (store : IsStore a.kv)
    (pair : HasPair a.platform a.keys a.platform.users) where
  -- The user of the path is found, and is an admin afterwards.
  abbrev pub Promoted : (id : Bytes) → S → S → Type 0
  Promoted id s s' =
      (key : Bytes) × (old : User DateTime) × (new : User DateTime) × Finds a store pair s id key
        old
      × HoldsUser a store pair s' old.user_id new
      × (new.role ≡ admin)

module _ {DateTime S : Type 0} (c : Clients DateTime S) (a : Admin DateTime S)
    (store : IsStore a.kv) (pair : HasPair a.platform a.keys a.platform.users)
    (decode : Bytes → Option Claims) where
  handle-update_user :
      (claims : Claims) (id : Bytes) (payload : UpdateUserPayload) (s : S) (r : ProtoUser)
      → (c.update_user (request_for id payload) s).0 ≡ done (some r)
      → handle c claims (ApiRoute.update_user id payload) s
        ≡ ((200, user r), (c.update_user (request_for id payload) s).1)
  unfolding handle App.update_user user_reply
  handle-update_user claims id payload s r h =
      by_answer (c.update_user (request_for id payload) s) h
    where
      by_answer :
          (x : Outcome Status (Option ProtoUser) × S)
          → x.0 ≡ done (some r)
          → answer from_status user_reply x ≡ ((200, user r), x.1)
      by_answer (y, s') e = rw e refl

  -- The role of a token is not looked at: when the gateway's administration client answers as the
  -- administration service does, on a store and with the keys of a pair, and that service carries
  -- out an update that gives a user the role of number 0, then a request for it with a token that
  -- decodes, to whatever subject and role, is answered with 200 and the user, and the user of the
  -- path is an admin afterwards.
  pub any_role_promotes :
      (draws : Draws DateTime) (jwt : Bytes) (claims : Claims) (id : Bytes)
      (payload : UpdateUserPayload) (s : S) (r : ProtoUser)
      → decode jwt ≡ some claims
      → payload.role ≡ some (pos 0)
      → (c.update_user (request_for id payload) s).0 ≡ done (some r)
      → (c.update_user (request_for id payload) s).1
        ≡ (update_user a draws (request_for id payload) s).1
      → (update_user a draws (request_for id payload) s).0 ≡ done r
      → let answered =
          app c decode (some (bearer ++ jwt)) (guarded (ApiRoute.update_user id payload)) s in
        (answered.0 ≡ (200, user r)) × Promoted a store pair id s answered.1
  any_role_promotes draws jwt claims id payload s r d zeroth told state served =
      let req = request_for id payload in
      let answered =
        passes c decode jwt claims (ApiRoute.update_user id payload) s d
        ∙ handle-update_user claims id payload s r told in
      let (key, old, new, found, holds, edited, credentials, others, shown) =
        update_user_lem a store pair draws req s r served in
      let named : new.role ≡ admin =
        subst (λ o. Given (given_role o) old.role new.role) zeroth edited.role in
      let next = ap (λ (x : Reply × S). x.1) answered ∙ state in
      (
        ap (λ (x : Reply × S). x.0) answered,
        subst (Promoted a store pair id s) (sym next) (key, old, new, found, holds, named),
      )
