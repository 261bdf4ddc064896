-- ===== src/Accounts/Journey.antt =====
-- An account through both services: created or changed by admin/src/server.rs, logged in by
-- auth/src/server.rs, on one database, with the same keys.
use infovulcan.Common.{
  ◌≡◌, refl, sym, ap, ◌∙◌, subst, inl, Bool, true, false, some, [], arith, length, Bytes,
}
use infovulcan.Common.Outcome.{Outcome, done}
use infovulcan.Grpc.{Code}
use infovulcan.Kv.{IsStore}
use infovulcan.Serde.{Serde}
use infovulcan.Shared.User.{User, UserAuth}
use infovulcan.Accounts.{Holds, users_collection, auth_collection, auth_key}
use infovulcan.Accounts.Sealed.{HasPair}
use infovulcan.Admin.{
  Admin, Draws, CreateUserRequest, UpdateUserRequest, ProtoUser, created_user, created_auth,
  create_user, delete_user, update_user, with_fields, user_to_proto,
}
use infovulcan.Admin.Users.{HoldsUser, HoldsAuth, Created, create_user_lem, auth-users}
use infovulcan.Admin.Updates.{Deleted, Changed, delete_user_lem, update_user-with_fields}
use infovulcan.Auth.{
  AuthenticateResponse, Auth, Env, Tokens, AuthenticateRequest, fetch, get_user_auth,
  get_user_profile, user_info, claims_of, authenticate,
}
use infovulcan.Auth.Login.{PassesMfa, authenticate-Grants}

module _ {DateTime S : Type 0} (a : Admin DateTime S) (store : IsStore a.kv)
    (pair : HasPair a.platform a.keys a.platform.users) (tokens : Tokens DateTime)
    (jwt_secret : Bytes) where
  -- The authentication service of the same deployment.
  abbrev pub auth_service : Auth DateTime S
  auth_service = record {
    kv = a.kv;
    platform = a.platform;
    tokens = tokens;
    keys = a.keys;
    jwt_secret = jwt_secret;
  }

  fetch-Holds :
      {A : Type 0} (serde : Serde A) (s : S) (collection key : Bytes) (x : A)
      → Holds a.platform a.keys serde a.kv s collection key x
      → fetch auth_service serde s collection key ≡ done (some x)
  unfolding fetch
  fetch-Holds serde s collection key x (value, e1, e2) = rw (e1, e2) refl

  -- The answer to a login that is granted.
  abbrev pub logged_in : (token : Bytes) → User DateTime → AuthenticateResponse DateTime
  logged_in token user = record {
    success = true;
    session_token = token;
    error = [];
    user = some (user_info auth_service user);
  }

  abbrev pub LogsIn : S → Env DateTime → AuthenticateRequest → User DateTime → Type 0
  LogsIn s env req user =
      (expires : DateTime) (token : Bytes)
      → tokens.add_day env.now ≡ some expires
      → tokens.jwt_encode jwt_secret (claims_of auth_service user expires) ≡ some token
      → authenticate auth_service s env req ≡ done (logged_in token user)

  LogsIn-of_holds :
      (s : S) (env : Env DateTime) (req : AuthenticateRequest) (auth : UserAuth)
      (user : User DateTime)
      → HoldsAuth a store pair s req.username auth
      → HoldsUser a store pair s auth.user_id user
      → a.platform.verify_password auth.password_hash req.password ≡ some true
      → PassesMfa auth_service env auth req.mfa_token
      → LogsIn s env req user
  unfolding get_user_auth get_user_profile
  LogsIn-of_holds s env req auth user h k v m expires token e1 e2 =
      ((authenticate-Grants auth_service s env req _).1 (
        auth,
        fetch-Holds a.platform.auths s auth_collection (auth_key req.username) auth h,
        v,
        m,
        (
          user,
          expires,
          token,
          fetch-Holds a.platform.users s users_collection auth.user_id user k,
          e1,
          e2,
          refl,
        ),
      )).0

  abbrev request_of : CreateUserRequest → (mfa_token : Bytes) → AuthenticateRequest
  request_of req mfa_token = record {
    username = req.username;
    password = req.password;
    mfa_token = mfa_token;
  }

  -- On a store, with the keys of a pair: when the creation of a user succeeds, the name and the
  -- password of the request log in, with any MFA token, as long as a token can be signed; the login
  -- shows the user created.
  pub authenticate-create_user :
      (draws : Draws DateTime) (req : CreateUserRequest) (s : S) (r : ProtoUser)
      (env : Env DateTime) (mfa_token : Bytes) (expires : DateTime) (token : Bytes)
      → (create_user a draws req s).0 ≡ done r
      → tokens.add_day env.now ≡ some expires
      → tokens.jwt_encode jwt_secret (claims_of auth_service (created_user a draws req) expires)
        ≡ some token
      → authenticate auth_service (create_user a draws req s).1 env (request_of req mfa_token)
        ≡ done (logged_in token (created_user a draws req))
  unfolding created_auth
  authenticate-create_user draws req s r env mfa_token expires token h =
      let (hash, (e1, e2, e3, e4, e5)) = create_user_lem a store pair draws req s r h in
      LogsIn-of_holds _ env (request_of req mfa_token) (created_auth a draws hash)
        (created_user a draws req) e3 e2
        (a.platform.verify_password-hash_password draws.salt req.password hash e1) (inl refl)
        expires token

  -- The profile that a collection holds is one.
  HoldsUser-unique :
      (s : S) (id : Bytes) (u v : User DateTime)
      → HoldsUser a store pair s id u
      → HoldsUser a store pair s id v
      → u ≡ v
  HoldsUser-unique s id u v (x, e1, e2) (y, e3, e4) = ground (arith, e1, e2, e3, e4)

  Created-in :
      (draws : Draws DateTime) (req : CreateUserRequest) (s s1 : S) (r : ProtoUser)
      → create_user a draws req s ≡ (done r, s1)
      → (hash : Bytes) × Created a store pair draws req s r hash s1
  Created-in draws req s s1 r h =
      let (hash, c) =
        create_user_lem a store pair draws req s r
          (ap (λ (x : Outcome Code ProtoUser × S). x.0) h) in
      (
        hash,
        subst (Created a store pair draws req s r hash)
            (ap (λ (x : Outcome Code ProtoUser × S). x.1) h) c,
      )

  abbrev pub deactivated : (draws later : Draws DateTime) → CreateUserRequest → User DateTime
  deactivated draws later req = record (created_user a draws req) {
    is_active = false;
    updated_at = later.updated_at;
  }

  -- On a store, with the keys of a pair: a user who was created and then deleted, by the 16 bytes of
  -- her uuid in text, has an inactive profile and still logs in with her password, as long as a token
  -- can be signed.
  pub authenticate-delete_user :
      (draws later : Draws DateTime) (req : CreateUserRequest) (s s1 s2 : S) (r : ProtoUser)
      (env : Env DateTime) (mfa_token : Bytes) (expires : DateTime) (token : Bytes)
      → length draws.user_id ≡ 16
      → create_user a draws req s ≡ (done r, s1)
      → delete_user a later (a.platform.uuid_string draws.user_id) s1 ≡ (done true, s2)
      → tokens.add_day env.now ≡ some expires
      → tokens.jwt_encode jwt_secret (claims_of auth_service (created_user a draws req) expires)
        ≡ some token
      → HoldsUser a store pair s2 draws.user_id (deactivated draws later req)
        × (authenticate auth_service s2 env (request_of req mfa_token)
            ≡ done (logged_in token (created_user a draws req)))
  unfolding created_auth claims_of user_info created_user
  authenticate-delete_user draws later req s s1 s2 r env mfa_token expires token n h0 k0 d j =
      let (hash, (e1, e2, e3, e4, e5)) = Created-in draws req s s1 r h0 in
      let (key, old, f, g, keeps) =
        subst (Deleted a store pair later (a.platform.uuid_string draws.user_id) s1)
          (ap (λ (x : Outcome Code Bool × S). x.1) k0)
          (delete_user_lem a store pair later (a.platform.uuid_string draws.user_id) s1
            (ap (λ (x : Outcome Code Bool × S). x.0) k0)) in
      let parsed = a.platform.parse_uuid-uuid_string draws.user_id n in
      let here : draws.user_id ≡ key = ground (arith, parsed, f.0) in
      let same : old ≡ created_user a draws req =
        HoldsUser-unique s1 draws.user_id old (created_user a draws req)
          (subst (λ x. HoldsUser a store pair s1 x old) (sym here) f.1) e2 in
      let holds : HoldsUser a store pair s2 draws.user_id (deactivated draws later req) =
        subst
          (λ (u : User DateTime).
            HoldsUser a store pair s2 u.user_id
              (record u { is_active = false; updated_at = later.updated_at }))
          same g in
      let kept =
        keeps auth_collection (auth_key req.username)
          (auth-users a store pair old.user_id (auth_key req.username)) in
      let auth : HoldsAuth a store pair s2 req.username (created_auth a draws hash) =
        (e3.0, kept ∙ e3.1, e3.2) in
      (
        holds,
        LogsIn-of_holds s2 env (request_of req mfa_token) (created_auth a draws hash)
            (deactivated draws later req) auth holds
            (a.platform.verify_password-hash_password draws.salt req.password hash e1) (inl refl)
            expires token d j,
      )

  -- On a store, with the keys of a pair: when an update with a new password succeeds, the user it
  -- shows logs in with her username and that password, if she passes the MFA fields of her
  -- credentials as they are then, and the login shows the updated profile.
  pub authenticate-update_user :
      (draws : Draws DateTime) (req : UpdateUserRequest) (password : Bytes) (s : S) (r : ProtoUser)
      → req.password ≡ some password
      → (update_user a draws req s).0 ≡ done r
      → (old : User DateTime) × (auth : UserAuth) × (r.username ≡ old.username)
        × (auth.user_id ≡ old.user_id)
        × HoldsAuth a store pair (update_user a draws req s).1 old.username auth
        × ((env : Env DateTime) (mfa_token : Bytes)
            → PassesMfa auth_service env auth mfa_token
            → LogsIn
                (update_user a draws req s).1
                env
                (record { username = old.username; password = password; mfa_token = mfa_token })
                (with_fields a draws req old))
  unfolding with_fields user_to_proto
  authenticate-update_user draws req password s r e h =
      let (key, old, found, holds, changed, keeps, shown) =
        update_user-with_fields a store pair draws req s r h in
      let s' = (update_user a draws req s).1 in
      let (hash, prior, mfa, e1, e2, e3, auth) =
        subst (λ o. Changed a store pair draws s old o s') e changed in
      let rehashed : UserAuth = record {
        user_id = old.user_id;
        password_hash = hash;
        mfa_secret = mfa.0;
        mfa_method = mfa.1;
      } in
      (
        old,
        rehashed,
        ap (λ (x : ProtoUser). x.username) shown,
        refl,
        auth,
        λ env mfa_token m.
            LogsIn-of_holds s' env
              (record { username = old.username; password = password; mfa_token = mfa_token })
              rehashed (with_fields a draws req old) auth holds
              (a.platform.verify_password-hash_password draws.salt password hash e1) m,
      )
