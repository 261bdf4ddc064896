-- ===== src/Admin/Updates/Fields.antt =====
-- The fields of a profile after an update through admin/src/server.rs, and in its answer.
use infovulcan.Common.{ℕ, zero, suc, ◌≡◌, refl, Option, none, some, List, [], ◌∷◌, arith}
use infovulcan.Common.Int.{ℤ, pos, negsuc}
use infovulcan.Shared.User.{
  Role, admin, manager, supervisor, technician, ebond_partner, read_only, User,
}
use infovulcan.Admin.{
  ProtoUser, UpdateUserRequest, Draws, Admin, or_keep, map_role, map_proto_role, user_to_proto,
  u64_or_zero, with_fields,
}

-- A field after an edit: the value given, or the one before.
abbrev pub Given : {A : Type 0} → Option A → (old new : A) → Type 0
Given none old new = new ≡ old
Given (some x) old new = new ≡ x

Given-or_keep : {A : Type 0} (o : Option A) (x : A) → Given o x (or_keep o x)
Given-or_keep none x = refl
Given-or_keep (some y) x = refl

-- The roles in the order of the protocol.
abbrev pub role_at : List Role → ℕ → Role
role_at [] n = read_only
role_at (r ∷ rs) zero = r
role_at (r ∷ rs) (suc n) = role_at rs n

abbrev pub numbered : ℤ → Role
numbered (pos n) = role_at (admin ∷ manager ∷ supervisor ∷ technician ∷ ebond_partner ∷ []) n
numbered (negsuc n) = read_only

numbered-map_role : (z : ℤ) → map_role z ≡ numbered z
unfolding map_role
numbered-map_role (negsuc n) = refl
numbered-map_role (pos zero) = refl
numbered-map_role (pos (suc zero)) = refl
numbered-map_role (pos (suc (suc zero))) = refl
numbered-map_role (pos (suc (suc (suc zero)))) = refl
numbered-map_role (pos (suc (suc (suc (suc zero))))) = refl
numbered-map_role (pos (suc (suc (suc (suc (suc n)))))) = ground arith

numbered-map_proto_role : (r : Role) → numbered (map_proto_role r) ≡ r
unfolding map_proto_role
numbered-map_proto_role admin = refl
numbered-map_proto_role manager = refl
numbered-map_proto_role supervisor = refl
numbered-map_proto_role technician = refl
numbered-map_proto_role ebond_partner = refl
numbered-map_proto_role read_only = refl

abbrev pub given_role : Option ℤ → Option Role
given_role none = none
given_role (some z) = some (numbered z)

module _ {DateTime S : Type 0} (a : Admin DateTime S) where
  -- The fields of the request are set, the change is dated, and the others are as they were.
  pub record Edited (draws : Draws DateTime) (req : UpdateUserRequest) (old new : User DateTime)
      : Type 0 where
    pub email : Given req.email old.email new.email
    pub display_name : Given req.display_name old.display_name new.display_name
    pub role : Given (given_role req.role) old.role new.role
    pub is_active : Given req.active old.is_active new.is_active
    pub updated_at : new.updated_at ≡ draws.updated_at
    pub user_id : new.user_id ≡ old.user_id
    pub username : new.username ≡ old.username
    pub mfa_enabled : new.mfa_enabled ≡ old.mfa_enabled
    pub last_login : new.last_login ≡ old.last_login
    pub created_at : new.created_at ≡ old.created_at

  -- What an answer shows of a profile.
  pub record Shows (user : User DateTime) (r : ProtoUser) : Type 0 where
    pub id : r.id ≡ a.platform.uuid_string user.user_id
    pub username : r.username ≡ user.username
    pub email : r.email ≡ user.email
    pub display_name : r.display_name ≡ user.display_name
    pub role : numbered r.role ≡ user.role
    pub active : r.active ≡ user.is_active
    pub created_at : r.created_at ≡ u64_or_zero (a.platform.timestamp user.created_at)

  pub Edited-with_fields :
      (draws : Draws DateTime) (req : UpdateUserRequest) (old : User DateTime)
      → Edited draws req old (with_fields a draws req old)
  unfolding with_fields
  Edited-with_fields draws req old = record {
    email = Given-or_keep req.email old.email;
    display_name = Given-or_keep req.display_name old.display_name;
    role = role_given req.role;
    is_active = Given-or_keep req.active old.is_active;
    updated_at = refl;
    user_id = refl;
    username = refl;
    mfa_enabled = refl;
    last_login = refl;
    created_at = refl;
  }
    where
      role_given :
          (z : Option ℤ)
          → Given (given_role z) old.role (elim z [ none ↦ old.role | some x ↦ map_role x ])
      role_given none = refl
      role_given (some x) = numbered-map_role x

  pub Shows-user_to_proto : (user : User DateTime) → Shows user (user_to_proto a user)
  unfolding user_to_proto
  Shows-user_to_proto user = record {
    id = refl;
    username = refl;
    email = refl;
    display_name = refl;
    role = numbered-map_proto_role user.role;
    active = refl;
    created_at = refl;
  }
