-- ===== src/Auth.antt =====
-- The authentication service, auth/src/server.rs. It reads the database and changes nothing.
pub mod Login
pub mod Session
use infovulcan.Common.{
  ℕ, zero, suc, ◌+◌, ◌-◌, ◌*◌, ◌/◌, ◌%◌, ◌^◌, ◌≤◌, ◌<◌, ◌≡◌, refl, sym, ap, ◌∙◌, subst, ◌≢◌, ◌↔◌,
  ◌⊎◌, inl, inr, Bool, true, false, not, ◌&&◌, ◌||◌, Option, none, some, List, [], ◌∷◌, ◌++◌, map,
  arith, ltb, leb, ◌==◌, if◌then◌else◌, ltb→lt, lt→ltb, leb→le, le→leb, ==_iff, tests, Bool-cases,
  Option-cases, length, length-append, take, drop, replicate, filter, In, In-filter, of_In-filter,
  All, All-In, Bytes, ascii, beq, beq_refl, eq_of_beq, starts_with, starts_with-append, blt, ble,
  blt_irrefl, blt_trans, blt_total, Error, not_found, corrupt, Result, ok, err, or_err,
  Result-cases,
}
use infovulcan.Common.Int.{ℤ, pos, negsuc, le_ℤ}
use infovulcan.Common.Outcome.{Outcome, done, failed, ok_or, map_err, ◌>>=◌}
use infovulcan.Common.Text.{trim, is_empty}
use infovulcan.Grpc.{Code}
use infovulcan.Kv.{Kv}
use infovulcan.Serde.{Serde}
use infovulcan.Shared.User.{User, UserAuth}
use infovulcan.Accounts.{
  Platform, Keys, users_collection, auth_collection, auth_key, role_debug, open_record,
}

pub record Claims : Type 0 where
  pub sub : Bytes
  pub exp : ℕ
  pub role : Bytes

pub record AuthenticateRequest : Type 0 where
  pub username : Bytes
  pub password : Bytes
  pub mfa_token : Bytes

-- The last login is passed on as it is.
pub record UserInfo (DateTime : Type 0) : Type 0 where
  pub user_uuid : Bytes
  pub username : Bytes
  pub display_name : Bytes
  pub email : Bytes
  pub role : Bytes
  pub last_login : Option DateTime

pub record AuthenticateResponse (DateTime : Type 0) : Type 0 where
  pub success : Bool
  pub session_token : Bytes
  pub error : Bytes
  pub user : Option (UserInfo DateTime)

pub record ValidateSessionResponse (DateTime : Type 0) : Type 0 where
  pub valid : Bool
  pub user : Option (UserInfo DateTime)
  pub error : Bytes

pub record LogoutResponse : Type 0 where
  pub success : Bool
  pub error : Bytes

-- The crates `totp-rs`, `jsonwebtoken` and `chrono`. A token is read back until it expires, by the
-- secret that signed it; a time is in unix seconds.
pub record Tokens (DateTime : Type 0) : Type 0 where
  pub decode_secret : Bytes → Option Bytes
  pub check_totp : (secret token : Bytes) → (now : DateTime) → Option Bool
  pub add_day : DateTime → Option DateTime
  pub jwt_encode : (secret : Bytes) → Claims → Option Bytes
  pub jwt_decode : (now : ℤ) → (secret token : Bytes) → Option Claims
  pub jwt_decode-jwt_encode :
      (secret : Bytes) (claims : Claims) (token : Bytes) (now : ℤ)
      → jwt_encode secret claims ≡ some token
      → le_ℤ now (pos claims.exp) ≡ true
      → jwt_decode now secret token ≡ some claims

-- What a call reads besides the database: the clock and the variable `MFA_DISABLED`.
pub record Env (DateTime : Type 0) : Type 0 where
  pub now : DateTime
  pub mfa_disabled : Option Bytes

-- `usize::try_from(v).unwrap_or(0)`
abbrev pub usize_or_zero : ℤ → ℕ
usize_or_zero (pos n) = n
usize_or_zero (negsuc n) = 0

-- `is_ok_and(|v| v == "1")`
abbrev pub is_set : Option Bytes → Bool
is_set none = false
is_set (some v) = beq v (ascii "1")

abbrev db_error : Code → Code
db_error e = Code.internal

pub record Auth (DateTime S : Type 0) : Type 1 where
  pub kv : Kv S
  pub platform : Platform DateTime
  pub tokens : Tokens DateTime
  pub keys : Keys
  pub jwt_secret : Bytes

module _ {DateTime S : Type 0} (a : Auth DateTime S) where
  -- A record of a collection, opened.
  unfoldable pub fetch :
      {A : Type 0} → Serde A → S → (collection key : Bytes) → Outcome Code (Option A)
  fetch serde s collection key = do
    found ← map_err db_error (a.kv.get s collection key)
    elim found [
      | none ↦ done none
      | some value ↦ do opened ← open_record a.platform a.keys serde value; done (some opened)
    ]

  unfoldable pub get_user_auth : S → (username : Bytes) → Outcome Code (Option UserAuth)
  get_user_auth s username = fetch a.platform.auths s auth_collection (auth_key username)

  unfoldable pub get_user_profile : S → (user_id : Bytes) → Outcome Code (Option (User DateTime))
  get_user_profile s user_id = fetch a.platform.users s users_collection user_id

  unfoldable pub verify_totp : (secret token : Bytes) → DateTime → Outcome Code Bool
  verify_totp secret token now = do
    bytes ← ok_or (a.tokens.decode_secret secret) Code.internal
    ok_or (a.tokens.check_totp bytes token now) Code.internal

  unfoldable pub refused : (error : Bytes) → AuthenticateResponse DateTime
  refused error = record { success = false; session_token = []; error = error; user = none }

  unfoldable pub user_info : User DateTime → UserInfo DateTime
  user_info user = record {
    user_uuid = a.platform.uuid_string user.user_id;
    username = user.username;
    display_name = user.display_name;
    email = user.email;
    role = role_debug user.role;
    last_login = user.last_login;
  }

  unfoldable pub claims_of : User DateTime → DateTime → Claims
  claims_of user expires = record {
    sub = a.platform.uuid_string user.user_id;
    exp = usize_or_zero (a.platform.timestamp expires);
    role = role_debug user.role;
  }

  -- Step 3: none lets the login go on, a text refuses it.
  unfoldable pub check_mfa :
      Env DateTime → UserAuth → (mfa_token : Bytes) → Outcome Code (Option Bytes)
  check_mfa env user_auth mfa_token = elim user_auth.mfa_secret [
    | none ↦ done none
    | some secret ↦
        if is_set env.mfa_disabled
        then done none
        else if is_empty (trim mfa_token)
        then done (some (ascii "MFA token required"))
        else elim (verify_totp secret (trim mfa_token) env.now) [
          | failed e ↦ failed e
          | done good ↦ done (if good then none else some (ascii "Invalid MFA token"))
        ]
  ]

  -- Steps 4 to 6: the profile and the token.
  unfoldable pub issue : S → Env DateTime → UserAuth → Outcome Code (AuthenticateResponse DateTime)
  issue s env user_auth = do
    found ← get_user_profile s user_auth.user_id
    user ← ok_or found Code.internal
    expires ← ok_or (a.tokens.add_day env.now) Code.internal
    token ← ok_or (a.tokens.jwt_encode a.jwt_secret (claims_of user expires)) Code.internal
    done
        (record { success = true; session_token = token; error = []; user = some (user_info user) })

  -- Steps 2 to 6.
  unfoldable pub login :
      S
      → Env DateTime
      → AuthenticateRequest
      → UserAuth
      → Outcome Code (AuthenticateResponse DateTime)
  login s env req user_auth = do
    verified ← ok_or (a.platform.verify_password user_auth.password_hash req.password) Code.internal
    if not verified then done (refused (ascii "Invalid credentials")) else (do
      stop ← check_mfa env user_auth req.mfa_token
      elim stop [ none ↦ issue s env user_auth | some error ↦ done (refused error) ])

  unfoldable pub authenticate :
      S → Env DateTime → AuthenticateRequest → Outcome Code (AuthenticateResponse DateTime)
  authenticate s env req = do
    found ← get_user_auth s req.username
    elim found [
      | none ↦ done (refused (ascii "Invalid credentials"))
      | some user_auth ↦ login s env req user_auth
    ]

  unfoldable pub invalid_session : (error : Bytes) → ValidateSessionResponse DateTime
  invalid_session error = record { valid = false; user = none; error = error }

  unfoldable pub session_of : S → Claims → Outcome Code (ValidateSessionResponse DateTime)
  session_of s claims = do
    user_id ← ok_or (a.platform.parse_uuid claims.sub) Code.internal
    found ← get_user_profile s user_id
    elim found [
      | none ↦ done (invalid_session (ascii "User not found"))
      | some user ↦ done (record { valid = true; user = some (user_info user); error = [] })
    ]

  unfoldable pub validate_session :
      S → (now : ℤ) → (session_token : Bytes) → Outcome Code (ValidateSessionResponse DateTime)
  validate_session s now session_token = elim (a.tokens.jwt_decode now a.jwt_secret session_token) [
    | none ↦ done (invalid_session (ascii "Invalid token"))
    | some claims ↦ session_of s claims
  ]

-- Tokens are not revoked.
unfoldable pub logout : LogoutResponse
logout = record { success = true; error = [] }
