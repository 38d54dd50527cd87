-- ===== src/Server/Membership/Assignments.antt =====
-- server/src/api/admin.rs: the requests that give a user a role and take one, with the writes of
-- server/src/database.rs. A request runs alone, and what it hands to the audit logger is left out. The
-- graph is the one in memory; `active` lists the active users.
use cooperative_systems_spac.Prelude.{
  ℕ, Bool, not, ◌&&◌, List, [], ◌∷◌, ◌==◌, nat_eq, string_eq, pair_eq, filter, contains, leb,
  Result, ok, err, ◌>>◌, guard,
}
use cooperative_systems_spac.Server.Rbac.{RoleGraph, has_permission}
use cooperative_systems_spac.Server.Rbac.Admin.Tables.{ApiError, insert_row}
use cooperative_systems_spac.Server.Membership.{
  roles_for_user, user_is_admin, count_active_admins, admin_access,
}

unfoldable pub db_assign_user_role : ℕ → ℕ → List (ℕ × ℕ) → List (ℕ × ℕ)
db_assign_user_role uid role_id user_roles = insert_row user_roles (uid, role_id)

unfoldable pub db_unassign_user_role : ℕ → ℕ → List (ℕ × ℕ) → List (ℕ × ℕ)
db_unassign_user_role uid role_id user_roles =
    filter (λ (a : ℕ × ℕ). not (a.0 == uid && a.1 == role_id)) user_roles

-- The roles that the user would be left with.
abbrev pub remaining : ℕ → ℕ → List (ℕ × ℕ) → List ℕ
remaining uid role_id user_roles =
    filter (λ (r : ℕ). not (r == role_id)) (roles_for_user user_roles uid)

pub data Assignment : Type 0 where
  assign : ℕ → ℕ → Assignment
  unassign : ℕ → ℕ → Assignment

abbrev pub settled_roles : List (ℕ × ℕ) → Result ApiError (List (ℕ × ℕ)) → List (ℕ × ℕ)
settled_roles user_roles (ok next) = next
settled_roles user_roles (err e) = user_roles

module _ (graph : RoleGraph) (users roles active : List ℕ) where
  unfoldable pub assign_user_role : ℕ → ℕ → List (ℕ × ℕ) → Result ApiError (List (ℕ × ℕ))
  unfolding db_assign_user_role
  assign_user_role uid role_id user_roles = do
    guard (contains users uid) (ApiError.not_found "user not found")
    guard (contains roles role_id) (ApiError.not_found "role not found")
    ok (db_assign_user_role uid role_id user_roles)

  -- The user is an admin now, would not be one afterwards, and no other active user is.
  unfoldable pub drops_last_admin : ℕ → ℕ → List (ℕ × ℕ) → Bool
  drops_last_admin uid role_id user_roles =
      user_is_admin graph user_roles uid
      && not (has_permission graph (remaining uid role_id user_roles) admin_access)
      && leb (count_active_admins graph active user_roles) 1

  unfoldable pub unassign_user_role : ℕ → ℕ → List (ℕ × ℕ) → Result ApiError (List (ℕ × ℕ))
  unfolding drops_last_admin db_unassign_user_role
  unassign_user_role uid role_id user_roles = do
    guard (not (drops_last_admin uid role_id user_roles))
        (ApiError.forbidden "cannot remove the last administrator's admin access")
    guard (contains user_roles (uid, role_id))
        (ApiError.not_found "the user does not hold that role")
    ok (db_unassign_user_role uid role_id user_roles)

  unfoldable pub request : Assignment → List (ℕ × ℕ) → Result ApiError (List (ℕ × ℕ))
  unfolding assign_user_role unassign_user_role
  request (Assignment.assign uid role_id) user_roles = assign_user_role uid role_id user_roles
  request (Assignment.unassign uid role_id) user_roles = unassign_user_role uid role_id user_roles

  unfoldable pub request_all : List Assignment → List (ℕ × ℕ) → List (ℕ × ℕ)
  unfolding request
  request_all [] user_roles = user_roles
  request_all (a ∷ rest) user_roles =
      request_all rest (settled_roles user_roles (request a user_roles))
