-- ===== src/Shared/User/Permission.antt =====
-- What the permission tests of shared/src/user.rs decide.
use infovulcan.Common.{◌≤◌, ◌≡◌, ◌↔◌, true, ◌&&◌, arith}
use infovulcan.Shared.User.{
  Role, role_as_u8, is_admin, can_modify_tickets, can_manage_users, User, has_permission,
}

module _ {DateTime : Type 0} where
  -- A user has the permission of a role exactly when she is active and the code of her own role is
  -- at most that of the role asked for. So `can_manage_users` decides the permission of a manager
  -- for an active user, `can_modify_tickets` that of a technician, and `is_admin` that of an admin.
  pub has_permission_lem :
      (user : User DateTime)
      → ((role : Role)
          → (has_permission user role ≡ true)
            ↔ ((user.is_active ≡ true) × (role_as_u8 user.role ≤ role_as_u8 role)))
        × (has_permission user Role.manager ≡ (user.is_active && can_manage_users user.role))
        × (has_permission user Role.technician ≡ (user.is_active && can_modify_tickets user.role))
        × (has_permission user Role.admin ≡ (user.is_active && is_admin user.role))
  unfolding has_permission is_admin role_as_u8 can_manage_users can_modify_tickets
  has_permission_lem user = (λ role. ground arith, ground arith, ground arith, ground arith)
