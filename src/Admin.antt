-- ===== src/Admin.antt =====
-- The administration service, admin/src/server.rs. Its state is that of the database.
pub mod Users
pub mod Updates
pub mod Listing
pub mod Audit
mod Tests
use infovulcan.Common.{
  ℕ, zero, suc, ◌+◌, ◌-◌, ◌*◌, ◌/◌, ◌%◌, ◌^◌, ◌≤◌, ◌<◌, ◌≡◌, refl, sym, ap, ◌∙◌, subst, ◌≢◌, ◌↔◌,
  ◌⊎◌, inl, inr, Bool, true, false, not, ◌&&◌, ◌||◌, Option, none, some, List, [], ◌∷◌, ◌++◌, map,
  arith, ltb, leb, ◌==◌, if◌then◌else◌, ltb→lt, lt→ltb, leb→le, le→leb, ==_iff, tests, Bool-cases,
  Option-cases, length, length-append, take, drop, replicate, filter, In, In-filter, of_In-filter,
  All, All-In, Bytes, ascii, beq, beq_refl, eq_of_beq, starts_with, starts_with-append, blt, ble,
  blt_irrefl, blt_trans, blt_total, Error, not_found, corrupt, Result, ok, err, or_err,
  Result-cases,
}
use infovulcan.Common.Int.{ℤ, pos, negsuc}
use infovulcan.Common.Outcome.{Outcome, done, failed, ok_or}
use infovulcan.Common.Action.{Action, pure, lift, gets, ◌>>=◌}
use infovulcan.Grpc.{Code}
use infovulcan.Kv.{Kv}
use infovulcan.Serde.{Serde}
use infovulcan.Shared.Encryption.{Random}
use infovulcan.Shared.User.{
  Role, admin, manager, supervisor, technician, ebond_partner, read_only, AuthMethod, User,
  UserAuth,
}
use infovulcan.Accounts.{
  Platform, Keys, users_collection, auth_collection, auth_key, open_record, seal_record,
}

-- From the `i32` of a request.
unfoldable pub map_role : ℤ → Role
map_role (pos n) =
    if n == 0
    then admin
    else if n == 1
    then manager
    else if n == 2
    then supervisor
    else if n == 3
    then technician
    else if n == 4
    then ebond_partner
    else read_only
map_role (negsuc n) = read_only

-- The number of the role of the protocol.
unfoldable pub map_proto_role : Role → ℤ
map_proto_role admin = pos 0
map_proto_role manager = pos 1
map_proto_role supervisor = pos 2
map_proto_role technician = pos 3
map_proto_role ebond_partner = pos 4
map_proto_role read_only = pos 5

pub record ProtoUser : Type 0 where
  pub id : Bytes
  pub username : Bytes
  pub email : Bytes
  pub display_name : Bytes
  pub role : ℤ
  pub active : Bool
  pub created_at : ℕ

-- `u64::try_from(v).unwrap_or(0)`
abbrev pub u64_or_zero : ℤ → ℕ
u64_or_zero (pos n) = n
u64_or_zero (negsuc n) = 0

pub record CreateUserRequest : Type 0 where
  pub username : Bytes
  pub password : Bytes
  pub email : Bytes
  pub display_name : Bytes
  pub role : ℤ

pub record UpdateUserRequest : Type 0 where
  pub id : Bytes
  pub email : Option Bytes
  pub display_name : Option Bytes
  pub role : Option ℤ
  pub active : Option Bool
  pub password : Option Bytes

-- What a call draws and reads from the clock: the uuid of a new user, the salt of a password hash,
-- what sealing the credentials and the profile draws, and the times of creation and update.
pub record Draws (DateTime : Type 0) : Type 0 where
  pub user_id : Bytes
  pub salt : Bytes
  pub auth_random : Random
  pub user_random : Random
  pub created_at : DateTime
  pub updated_at : DateTime

pub record Admin (DateTime S : Type 0) : Type 1 where
  pub kv : Kv S
  pub platform : Platform DateTime
  pub keys : Keys

abbrev pub or_keep {ℓ} : {A : Type ℓ} → Option A → A → A
or_keep none a = a
or_keep (some b) a = b

module _ {DateTime S : Type 0} (a : Admin DateTime S) where
  abbrev pub Call : Type 0 → Type 0
  Call A = Action Code S A

  abbrev put : (collection key value : Bytes) → Call (Unit {0})
  put collection key value s = a.kv.put s collection key value

  unfoldable pub user_key : (id : Bytes) → Outcome Code Bytes
  user_key id = ok_or (a.platform.parse_uuid id) Code.invalid_argument

  unfoldable pub user_to_proto : User DateTime → ProtoUser
  user_to_proto user = record {
    id = a.platform.uuid_string user.user_id;
    username = user.username;
    email = user.email;
    display_name = user.display_name;
    role = map_proto_role user.role;
    active = user.is_active;
    created_at = u64_or_zero (a.platform.timestamp user.created_at);
  }

  unfoldable pub decrypt_user : (value : Bytes) → Outcome Code (User DateTime)
  decrypt_user value = open_record a.platform a.keys a.platform.users value

  unfoldable pub encrypt_user : Random → User DateTime → Outcome Code Bytes
  encrypt_user random user = seal_record a.platform a.keys a.platform.users random user

  -- The MFA fields of the credentials in place, if there are any.
  unfoldable pub mfa_of : Option Bytes → Outcome Code (Option Bytes × Option AuthMethod)
  mfa_of none = done (none, some AuthMethod.password)
  mfa_of (some value) = elim (open_record a.platform a.keys a.platform.auths value) [
    | failed e ↦ failed e
    | done prior ↦ done (prior.mfa_secret, prior.mfa_method)
  ]

  unfoldable pub update_password :
      Draws DateTime → (username user_id password : Bytes) → Call (Unit {0})
  update_password draws username user_id password = do
    password_hash ← lift (ok_or (a.platform.hash_password draws.salt password) Code.internal)
    existing ← gets (λ s. a.kv.get s auth_collection (auth_key username))
    mfa ← lift (mfa_of existing)
    let auth : UserAuth = record {
      user_id = user_id;
      password_hash = password_hash;
      mfa_secret = mfa.0;
      mfa_method = mfa.1;
    }
    value ← lift (seal_record a.platform a.keys a.platform.auths draws.auth_random auth)
    put auth_collection (auth_key username) value

  unfoldable pub created_user : Draws DateTime → CreateUserRequest → User DateTime
  created_user draws req = record {
    user_id = draws.user_id;
    username = req.username;
    display_name = req.display_name;
    email = req.email;
    role = map_role req.role;
    is_active = true;
    mfa_enabled = false;
    last_login = none;
    created_at = draws.created_at;
    updated_at = draws.updated_at;
  }

  unfoldable pub created_auth : Draws DateTime → (password_hash : Bytes) → UserAuth
  created_auth draws password_hash = record {
    user_id = draws.user_id;
    password_hash = password_hash;
    mfa_secret = none;
    mfa_method = some AuthMethod.password;
  }

  unfoldable pub create_user : Draws DateTime → CreateUserRequest → Call ProtoUser
  create_user draws req = do
    password_hash ← lift (ok_or (a.platform.hash_password draws.salt req.password) Code.internal)
    sealed_auth ← lift (
        seal_record a.platform a.keys a.platform.auths draws.auth_random
          (created_auth draws password_hash))
    sealed_user ← lift (encrypt_user draws.user_random (created_user draws req))
    stored ← put users_collection draws.user_id sealed_user
    indexed ← put auth_collection (auth_key req.username) sealed_auth
    pure (record (user_to_proto (created_user draws req)) { role = req.role })

  unfoldable pub existing_user : (id : Bytes) → Call (User DateTime)
  existing_user id = do
    key ← lift (user_key id)
    found ← gets (λ s. a.kv.get s users_collection key)
    value ← lift (ok_or found Code.not_found)
    lift (decrypt_user value)

  unfoldable pub get_user : (id : Bytes) → Call ProtoUser
  get_user id = do user ← existing_user id; pure (user_to_proto user)

  unfoldable pub with_fields : Draws DateTime → UpdateUserRequest → User DateTime → User DateTime
  with_fields draws req user = record user {
    email = or_keep req.email user.email;
    display_name = or_keep req.display_name user.display_name;
    role = elim req.role [ none ↦ user.role | some role ↦ map_role role ];
    is_active = or_keep req.active user.is_active;
    updated_at = draws.updated_at;
  }

  unfoldable pub store_user : Draws DateTime → User DateTime → Call (Unit {0})
  store_user draws user = do
    value ← lift (encrypt_user draws.user_random user)
    put users_collection user.user_id value

  unfoldable pub change_password : Draws DateTime → User DateTime → Option Bytes → Call (Unit {0})
  change_password draws user none = pure tt
  change_password draws user (some password) =
      update_password draws user.username user.user_id password

  unfoldable pub update_user : Draws DateTime → UpdateUserRequest → Call ProtoUser
  update_user draws req = do
    old ← existing_user req.id
    let user : User DateTime = with_fields draws req old
    changed ← change_password draws user req.password
    stored ← store_user draws user
    pure (user_to_proto user)

  unfoldable pub delete_user : Draws DateTime → (id : Bytes) → Call Bool
  delete_user draws id = do
    user ← existing_user id
    stored ← store_user draws (record user { is_active = false; updated_at = draws.updated_at })
    pure true
