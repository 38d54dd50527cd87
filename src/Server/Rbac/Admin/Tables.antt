-- ===== src/Server/Rbac/Admin/Tables.antt =====
-- The tables of roles and what server/src/database.rs reads and writes of them, the graph of the roles
-- loaded again after each write.
use cooperative_systems_spac.Prelude.{
  ℕ, Bool, false, not, ◌&&◌, ◌||◌, Option, List, [], ◌∷◌, ◌++◌, map, String, ℤ, Eq, ◌==◌, nat_eq,
  string_eq, pair_eq, any, filter, find, contains, Result, ok, ◌>>=◌, ◌>>◌, guard, ok_or,
  if◌then◌else◌, unwrap_or,
}
use mathlib.Core.List.{foldl}
use cooperative_systems_spac.Server.Rbac.{RoleGraph, RoleRow, from_rows}

pub data ApiError : Type 0 where
  forbidden : String → ApiError
  bad_request : String → ApiError
  not_found : String → ApiError
  conflict : String → ApiError

pub record Role : Type 0 where
  pub id : ℕ
  pub name : String
  pub description : String
  pub is_system : Bool
  pub level : ℤ
  pub created_at : ℕ
  pub updated_at : ℕ

pub data AuditEvent : Type 0 where
  role_created : ℕ → ℕ → String → ℤ → AuditEvent
  role_updated : ℕ → ℕ → String → ℤ → AuditEvent
  role_deleted : ℕ → ℕ → String → AuditEvent
  role_permissions_changed : ℕ → ℕ → List String → AuditEvent
  role_inheritance_changed : ℕ → ℕ → List ℕ → AuditEvent

-- The tables, and the graph that the server keeps of them.
pub record Rbac : Type 0 where
  pub permissions : List (String × String)
  pub roles : List Role
  pub role_permissions : List (ℕ × String)
  pub role_inheritance : List (ℕ × ℕ)
  pub user_roles : List (ℕ × ℕ)
  pub rbac_graph : RoleGraph
  pub audited : List AuditEvent

abbrev pub row_of : Role → RoleRow
row_of r = record { id = r.id; name = r.name; level = r.level }

unfoldable pub load : Rbac → RoleGraph
unfolding from_rows
load s = from_rows (map row_of s.roles) s.role_permissions s.role_inheritance

abbrev pub reload_rbac : Rbac → Rbac
unfolding load
reload_rbac s = record s { rbac_graph = load s }

abbrev pub get_role : Rbac → ℕ → Option Role
get_role s id = find (λ (r : Role). r.id == id) s.roles

abbrev pub permission_keys : Rbac → List String
permission_keys s = map (λ (p : String × String). p.0) s.permissions

abbrev pub audit : AuditEvent → Rbac → Rbac
audit e s = record s { audited = s.audited ++ e ∷ [] }

-- `insert_into(..).on_conflict(..).do_nothing()` into a table whose rows are their own key.
abbrev pub insert_row {ℓ} : {A : Type ℓ} ⦃e : Eq A⦄ → List A → A → List A
insert_row rows row = if contains rows row then rows else rows ++ row ∷ []

-- The name is unique, and so is the id.
unfoldable pub db_create_role : ℕ → ℕ → String → String → ℤ → Rbac → Result ApiError (Rbac × Role)
unfolding load
db_create_role now id name description level s = do
  guard (not (any (λ (r : Role). r.name == name || r.id == id) s.roles))
      (ApiError.conflict "Resource already exists")
  let role : Role = record {
    id = id;
    name = name;
    description = description;
    is_system = false;
    level = level;
    created_at = now;
    updated_at = now;
  }
  ok (reload_rbac (record s { roles = s.roles ++ role ∷ [] }), role)

abbrev pub changed : ℕ → ℕ → Option String → Option ℤ → Role → Role
changed now id description level r =
    if r.id == id
    then record r {
      description = unwrap_or r.description description;
      level = unwrap_or r.level level;
      updated_at = now;
    }
    else r

unfoldable pub db_update_role :
    ℕ → ℕ → Option String → Option ℤ → Rbac → Result ApiError (Rbac × Role)
unfolding load
db_update_role now id description level s = do
  let s' = record s { roles = map (changed now id description level) s.roles }
  role ← ok_or (get_role s' id) (ApiError.not_found "Requested resource not found")
  ok (reload_rbac s', role)

-- The rows of other tables that refer to the role go with it.
unfoldable pub db_delete_role : ℕ → Rbac → Rbac
unfolding load
db_delete_role id s = reload_rbac (record s {
  roles = filter (λ (r : Role). not (r.id == id)) s.roles;
  role_permissions = filter (λ (g : ℕ × String). not (g.0 == id)) s.role_permissions;
  role_inheritance = filter (λ (e : ℕ × ℕ). not (e.0 == id) && not (e.1 == id)) s.role_inheritance;
  user_roles = filter (λ (a : ℕ × ℕ). not (a.1 == id)) s.user_roles;
})

unfoldable pub db_set_role_permissions : ℕ → List String → Rbac → Rbac
unfolding load
db_set_role_permissions id keys s =
    let others = filter (λ (g : ℕ × String). not (g.0 == id)) s.role_permissions in
    reload_rbac
      (record s { role_permissions = foldl insert_row others (map (λ (k : String). (id, k)) keys) })

unfoldable pub db_set_role_inheritance : ℕ → List ℕ → Rbac → Rbac
unfolding load
db_set_role_inheritance id parents s =
    let others = filter (λ (e : ℕ × ℕ). not (e.0 == id)) s.role_inheritance in
    reload_rbac
      (record s { role_inheritance = foldl insert_row others (map (λ (p : ℕ). (id, p)) parents) })
