-- ===== src/Accounts/Replicated.antt =====
-- Accounts down to the storage: admin/src/server.rs and auth/src/server.rs as clients of
-- db/src/server.rs, whose writes go through the log to db/src/storage.rs.
mod Tests
use infovulcan.Common.{
  ℕ, zero, suc, ◌+◌, ◌-◌, ◌*◌, ◌/◌, ◌%◌, ◌^◌, ◌≤◌, ◌<◌, ◌≡◌, refl, sym, ap, ◌∙◌, subst, ◌≢◌, ◌↔◌,
  ◌⊎◌, inl, inr, Bool, true, false, not, ◌&&◌, ◌||◌, Option, none, some, List, [], ◌∷◌, ◌++◌, map,
  arith, ltb, leb, ◌==◌, if◌then◌else◌, ltb→lt, lt→ltb, leb→le, le→leb, ==_iff, tests, Bool-cases,
  Option-cases, length, length-append, take, drop, replicate, filter, In, In-filter, of_In-filter,
  All, All-In, Bytes, ascii, beq, beq_refl, eq_of_beq, starts_with, starts_with-append, blt, ble,
  blt_irrefl, blt_trans, blt_total, Error, not_found, corrupt, Result, ok, err, or_err,
  Result-cases,
}
use infovulcan.Common.Outcome.{done}
use infovulcan.Db.Types.{Backend}
use infovulcan.Db.Server.{ClientWrite}
use infovulcan.Db.Server.Calls.{Commits}
use infovulcan.Db.Server.KeyValues.Store.{kv, kv-IsStore}
use infovulcan.Accounts.Sealed.{HasPair}
use infovulcan.Accounts.Journey.{auth_service, logged_in, authenticate-create_user}
use infovulcan.Admin.{Admin, Draws, CreateUserRequest, ProtoUser, created_user, create_user}
use infovulcan.Accounts.Journey
use infovulcan.Auth.{Auth, Env, Tokens, AuthenticateResponse, authenticate, claims_of}
use infovulcan.Admin.Users

module _ {DateTime : Type 0} (b : Backend) (client_write : ClientWrite b)
    (admin : Admin DateTime b.sled.Db) (commits : Commits b client_write)
    (pair : HasPair admin.platform admin.keys admin.platform.users) (tokens : Tokens DateTime)
    (jwt_secret : Bytes) where
  -- The administration service, connected to the database.
  abbrev pub on_database : Admin DateTime b.sled.Db
  on_database = record admin { kv = kv b client_write }

  abbrev pub auth_on_database : Auth DateTime b.sled.Db
  auth_on_database =
      auth_service on_database (kv-IsStore b client_write commits) pair tokens jwt_secret

  abbrev pub granted :
      (token : Bytes) → Draws DateTime → CreateUserRequest → AuthenticateResponse DateTime
  granted token draws req =
      logged_in on_database (kv-IsStore b client_write commits) pair tokens jwt_secret token
        (created_user on_database draws req)

  -- A user that admin has created in the replicated database, where a write of openraft fails or is
  -- committed, can log in at auth with the username and the password of the request, whatever
  -- one-time code is sent and whether or not MFA_DISABLED is set, since the account has no second
  -- factor, as long as the time has a day after it and the token can be signed; the answer has that
  -- token and the user.
  pub authenticate_replicated :
      (draws : Draws DateTime) (req : CreateUserRequest) (d : b.sled.Db) (r : ProtoUser)
      (env : Env DateTime) (mfa_token : Bytes) (expires : DateTime) (token : Bytes)
      → (create_user on_database draws req d).0 ≡ done r
      → tokens.add_day env.now ≡ some expires
      → tokens.jwt_encode jwt_secret
          (claims_of auth_on_database (created_user on_database draws req) expires)
        ≡ some token
      → authenticate auth_on_database
          (create_user on_database draws req d).1
          env
          (record { username = req.username; password = req.password; mfa_token = mfa_token })
        ≡ done (granted token draws req)
  authenticate_replicated draws req d r env mfa_token expires token =
      authenticate-create_user on_database (kv-IsStore b client_write commits) pair tokens
        jwt_secret draws req d r env mfa_token expires token
