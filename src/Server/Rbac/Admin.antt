-- ===== src/Server/Rbac/Admin.antt =====
-- server/src/api/rbac_admin.rs: the requests that change roles, permissions and inheritance. A request
-- runs alone; who may send it is not here. The id of a new role comes from the database and is an
-- argument, as are the time and the text of a Uuid. Tables has the writes, with what is handed to the
-- audit logger.
pub mod Tables
pub mod Stored
pub mod Sound
pub mod Rows
pub mod Requests
pub mod Answers
pub mod System
pub mod Protected
mod Examples
use Prim.Native.String.{◌++◌ as append_text}
use cooperative_systems_spac.Prelude.{
  ℕ, Bool, true, false, not, ◌&&◌, ◌||◌, Option, none, some, List, [], ◌∷◌, ◌++◌, map, String, ℤ,
  pos, ltb_ℤ, Eq, ◌==◌, nat_eq, string_eq, pair_eq, any, filter, find, contains, Result, ok, err,
  ◌>>=◌, ◌>>◌, guard, ok_or, if◌then◌else◌, unwrap_or, is_some, is_some_and, leb, leb_text, sort_by,
  dedup, trim, has_no_chars,
}
use mathlib.Core.List.{foldl}
use cooperative_systems_spac.Server.Rbac.{
  RoleGraph, RoleRow, add_role, add_perm, add_edge, from_rows,
}
use cooperative_systems_spac.Server.Rbac.Cycles.{has_cycle}
use cooperative_systems_spac.Server.Rbac.Admin.Tables.{
  ApiError, Role, AuditEvent, Rbac, row_of, get_role, permission_keys, audit, db_create_role,
  db_update_role, db_delete_role, db_set_role_permissions, db_set_role_inheritance,
}

abbrev is_negative : ℤ → Bool
is_negative l = ltb_ℤ l (pos 0)

unfoldable pub create_role : ℕ → ℕ → ℕ → String → String → ℤ → Rbac → Result ApiError (Rbac × Role)
unfolding db_create_role
create_role admin now fresh payload_name description level s = do
  let name = trim payload_name
  guard (not (has_no_chars name)) (ApiError.bad_request "role name must not be empty")
  guard (not (is_negative level)) (ApiError.bad_request "role level must not be negative")
  (s', role) ← db_create_role now fresh name (trim description) level s
  ok (audit (AuditEvent.role_created admin role.id role.name role.level) s', role)

unfoldable pub update_role :
    ℕ → ℕ → ℕ → Option String → Option ℤ → Rbac → Result ApiError (Rbac × Role)
unfolding db_update_role
update_role admin now role_id description level s = do
  existing ← ok_or (get_role s role_id) (ApiError.not_found "role not found")
  guard (not (existing.is_system && is_some level))
      (ApiError.forbidden "the level of a system role cannot be changed")
  guard (not (is_some_and is_negative level))
      (ApiError.bad_request "role level must not be negative")
  (s', role) ← db_update_role now role_id description level s
  ok (audit (AuditEvent.role_updated admin role.id role.name role.level) s', role)

unfoldable pub delete_role : ℕ → ℕ → Rbac → Result ApiError Rbac
unfolding db_delete_role
delete_role admin role_id s = do
  existing ← ok_or (get_role s role_id) (ApiError.not_found "role not found")
  guard (not existing.is_system) (ApiError.forbidden "system roles cannot be deleted")
  ok (audit (AuditEvent.role_deleted admin role_id existing.name) (db_delete_role role_id s))

-- The keys in order, each once.
unfoldable pub keys_of : List String → List String
keys_of permissions = dedup (sort_by leb_text permissions)

unfoldable pub set_role_permissions : ℕ → ℕ → List String → Rbac → Result ApiError Rbac
unfolding db_set_role_permissions keys_of
set_role_permissions admin role_id permissions s = do
  _ ← ok_or (get_role s role_id) (ApiError.not_found "role not found")
  let keys = keys_of permissions
  elim (find (λ (k : String). not (contains (permission_keys s) k)) keys) [
    | some unknown ↦ err (ApiError.bad_request (append_text "unknown permission key: " unknown))
    | none ↦ ok (
        audit (AuditEvent.role_permissions_changed admin role_id keys)
          (db_set_role_permissions role_id keys s))
  ]

unfoldable pub parents_of : List ℕ → List ℕ
parents_of inherits = dedup (sort_by leb inherits)

-- The edges as they would be after the change.
unfoldable pub edges_after : ℕ → List ℕ → Rbac → List (ℕ × ℕ)
edges_after role_id parents s =
    filter (λ (e : ℕ × ℕ). not (e.0 == role_id)) s.role_inheritance
    ++ map (λ (p : ℕ). (role_id, p)) parents

unfoldable pub set_role_inheritance : (ℕ → String) → ℕ → ℕ → List ℕ → Rbac → Result ApiError Rbac
unfolding db_set_role_inheritance edges_after parents_of
set_role_inheritance uuid_text admin role_id inherits s = do
  let valid_ids = map (λ (r : Role). r.id) s.roles
  guard (contains valid_ids role_id) (ApiError.not_found "role not found")
  let parents = parents_of inherits
  guard (not (contains parents role_id)) (ApiError.bad_request "a role cannot inherit from itself")
  let unknown = find (λ (p : ℕ). not (contains valid_ids p)) parents
  elim unknown [
    | some p ↦
        err (ApiError.bad_request (append_text "unknown role id in inheritance: " (uuid_text p)))
    | none ↦ ok tt
  ]
  guard (not (has_cycle (from_rows (map row_of s.roles) [] (edges_after role_id parents s))))
      (ApiError.bad_request "this inheritance change would create a cycle")
  ok (
      audit (AuditEvent.role_inheritance_changed admin role_id parents)
        (db_set_role_inheritance role_id parents s))

-- A request with what it carries and what the database draws for it.
pub data Request : Type 0 where
  create : ℕ → ℕ → ℕ → String → String → ℤ → Request
  update : ℕ → ℕ → ℕ → Option String → Option ℤ → Request
  delete : ℕ → ℕ → Request
  set_permissions : ℕ → ℕ → List String → Request
  set_inheritance : ℕ → ℕ → List ℕ → Request

-- A request that is refused leaves the tables as they are.
abbrev pub settled : Rbac → Result ApiError Rbac → Rbac
settled s (ok s') = s'
settled s (err e) = s

module _ (uuid_text : ℕ → String) where
  unfoldable pub answer : Request → Rbac → Result ApiError Rbac
  unfolding create_role update_role delete_role set_role_permissions set_role_inheritance
  answer (Request.create admin now fresh name description level) s =
      create_role admin now fresh name description level s >>= λ r. ok r.0
  answer (Request.update admin now role_id description level) s =
      update_role admin now role_id description level s >>= λ r. ok r.0
  answer (Request.delete admin role_id) s = delete_role admin role_id s
  answer (Request.set_permissions admin role_id permissions) s =
      set_role_permissions admin role_id permissions s
  answer (Request.set_inheritance admin role_id inherits) s =
      set_role_inheritance uuid_text admin role_id inherits s

  unfoldable pub answer_all : List Request → Rbac → Rbac
  unfolding answer
  answer_all [] s = s
  answer_all (r ∷ rs) s = answer_all rs (settled s (answer r s))
