-- ===== src/Shared/User.antt =====
-- Roles, users and sessions: shared/src/user.rs.
pub mod Permission
use infovulcan.Common.{ℕ, Bool, true, false, not, ◌&&◌, Option, none, leb, if◌then◌else◌, Bytes}
use infovulcan.Common.Int.{ℤ, le_ℤ}

pub data Role : Type 0 where
  admin : Role
  manager : Role
  supervisor : Role
  technician : Role
  ebond_partner : Role
  read_only : Role

unfoldable pub role_as_u8 : Role → ℕ
role_as_u8 admin = 0
role_as_u8 manager = 1
role_as_u8 supervisor = 2
role_as_u8 technician = 3
role_as_u8 ebond_partner = 4
role_as_u8 read_only = 5

unfoldable pub is_admin : Role → Bool
is_admin admin = true
is_admin manager = false
is_admin supervisor = false
is_admin technician = false
is_admin ebond_partner = false
is_admin read_only = false

unfoldable pub can_modify_tickets : Role → Bool
can_modify_tickets admin = true
can_modify_tickets manager = true
can_modify_tickets supervisor = true
can_modify_tickets technician = true
can_modify_tickets ebond_partner = false
can_modify_tickets read_only = false

unfoldable pub can_manage_users : Role → Bool
can_manage_users admin = true
can_manage_users manager = true
can_manage_users supervisor = false
can_manage_users technician = false
can_manage_users ebond_partner = false
can_manage_users read_only = false

pub data AuthMethod : Type 0 where
  password : AuthMethod
  web_authn : AuthMethod
  u2f : AuthMethod
  totp : AuthMethod
  active_directory : AuthMethod

-- A uuid is its 16 bytes.
pub record UserAuth : Type 0 where
  pub user_id : Bytes
  pub password_hash : Bytes
  pub mfa_secret : Option Bytes
  pub mfa_method : Option AuthMethod

pub record User (DateTime : Type 0) : Type 0 where
  pub user_id : Bytes
  pub username : Bytes
  pub display_name : Bytes
  pub email : Bytes
  pub role : Role
  pub is_active : Bool
  pub mfa_enabled : Bool
  pub last_login : Option DateTime
  pub created_at : DateTime
  pub updated_at : DateTime

-- The fresh uuid and the time are arguments.
unfoldable pub new_user :
    {DateTime : Type 0}
    → Bytes
    → DateTime
    → (username display_name email : Bytes) → Role
    → User DateTime
new_user user_id now username display_name email role = record {
  user_id = user_id;
  username = username;
  display_name = display_name;
  email = email;
  role = role;
  is_active = true;
  mfa_enabled = false;
  last_login = none;
  created_at = now;
  updated_at = now;
}

unfoldable pub has_permission : {DateTime : Type 0} → User DateTime → Role → Bool
has_permission user required_role =
    if not user.is_active
    then false
    else if is_admin user.role
    then true
    else leb (role_as_u8 user.role) (role_as_u8 required_role)

-- A time of a session is its number of nanoseconds.
pub record Session : Type 0 where
  pub session_id : Bytes
  pub user_id : Bytes
  pub created_at : ℤ
  pub expires_at : ℤ
  pub mfa_verified : Bool
  pub ip_address : Bytes
  pub user_agent : Bytes

-- `now < expires_at`
unfoldable pub is_valid : Session → ℤ → Bool
is_valid session now = not (le_ℤ session.expires_at now)
