-- ===== src/Server/Rbac.antt =====
-- server/src/rbac.rs: the role graph in memory, and what a set of roles may do through inheritance.
-- A Uuid is a number. Sets of permission keys are tests; `inherits` is walked, so it is a list.
pub mod Closure
pub mod Effective
pub mod Cycles
pub mod Admin
mod Examples
use cooperative_systems_spac.Prelude.{
  ℕ, zero, suc, ◌+◌, Bool, true, false, ◌||◌, Option, none, some, List, [], ◌∷◌, ◌++◌, String, ℤ,
  pos, max_ℤ, if◌then◌else◌, ◌==◌, nat_eq, string_eq, any, filter_map, contains, Map, empty_map,
  insert, unwrap_or, Assoc, lookup, upsert, length,
}
use mathlib.Core.List.{reverse, foldl}

pub record RoleGraph : Type 0 where
  pub own_perms : Map ℕ (String → Bool)
  pub inherits : Assoc ℕ (List ℕ)
  pub level : Map ℕ ℤ
  pub by_name : Map String ℕ

abbrev pub no_perms : String → Bool
no_perms key = false

-- `entry(id).or_default()` on a map of sets.
abbrev default_perms : ℕ → Map ℕ (String → Bool) → Map ℕ (String → Bool)
default_perms id m = elim (m id) [ none ↦ insert id no_perms m | some _ ↦ m ]

pub record RoleRow : Type 0 where
  pub id : ℕ
  pub name : String
  pub level : ℤ

add_role : RoleGraph → RoleRow → RoleGraph
add_role g r = record {
  own_perms = default_perms r.id g.own_perms;
  inherits = upsert r.id [] (λ ps. ps) g.inherits;
  level = insert r.id r.level g.level;
  by_name = insert r.name r.id g.by_name;
}

-- `own_perms.entry(rid).or_default().insert(key)`
add_perm : RoleGraph → ℕ × String → RoleGraph
add_perm g (rid, key) =
    let own = unwrap_or no_perms (g.own_perms rid) in
    record g { own_perms = insert rid (λ k. key == k || own k) g.own_perms }

-- `inherits.entry(rid).or_default().push(parent)`
add_edge : RoleGraph → ℕ × ℕ → RoleGraph
add_edge g (rid, parent) = record g {
  inherits = upsert rid [] (λ ps. ps ++ parent ∷ []) g.inherits;
}

abbrev pub empty_graph : RoleGraph
empty_graph = record {
  own_perms = empty_map;
  inherits = [];
  level = empty_map;
  by_name = empty_map;
}

unfoldable pub from_rows : List RoleRow → List (ℕ × String) → List (ℕ × ℕ) → RoleGraph
unfolding add_role add_perm add_edge
from_rows roles perms edges =
    foldl add_edge (foldl add_perm (foldl add_role empty_graph roles) perms) edges

abbrev pub role_id : RoleGraph → String → Option ℕ
role_id g name = g.by_name name

unfoldable pub level_of_name : RoleGraph → String → Option ℤ
level_of_name g name = elim (g.by_name name) [ none ↦ none | some id ↦ g.level id ]

-- The direct parents of a role: `inherits.get(&r)`, and none where the role is not there.
abbrev pub parents : RoleGraph → ℕ → List ℕ
parents g r = unwrap_or [] (lookup r g.inherits)

-- The `while let` of `closure`. The stack's top is the list's head, so what `extend` pushes last
-- comes first. On fuel: `Closure` shows how much is enough.
close : RoleGraph → ℕ → List ℕ → List ℕ → List ℕ
close g zero stack seen = seen
close g (suc fuel) [] seen = seen
close g (suc fuel) (r ∷ stack) seen =
    let skip = close g fuel stack seen in
    let visit = close g fuel (reverse (parents g r) ++ stack) (r ∷ seen) in
    if contains seen r then skip else visit

-- The edges of the roles not seen yet.
unseen_edges : List ℕ → Assoc ℕ (List ℕ) → ℕ
unseen_edges seen [] = 0
unseen_edges seen ((k, ps) ∷ m) = (if contains seen k then 0 else length ps) + unseen_edges seen m

-- One round for each role to start with and for each edge.
closure_fuel : RoleGraph → List ℕ → ℕ
closure_fuel g roles = length roles + unseen_edges [] g.inherits

unfoldable pub closure : RoleGraph → List ℕ → List ℕ
unfolding close closure_fuel unseen_edges
closure g roles = close g (closure_fuel g roles) (reverse roles) []

unfoldable pub effective_permissions : RoleGraph → List ℕ → String → Bool
effective_permissions g roles key =
    any (λ r. unwrap_or no_perms (g.own_perms r) key) (closure g roles)

unfoldable pub has_permission : RoleGraph → List ℕ → String → Bool
unfolding effective_permissions
has_permission g roles key = effective_permissions g roles key

unfoldable pub effective_permissions_by_names : RoleGraph → List String → String → Bool
unfolding effective_permissions
effective_permissions_by_names g names = effective_permissions g (filter_map g.by_name names)

unfoldable pub has_permission_for_role_name : RoleGraph → String → String → Bool
unfolding has_permission
has_permission_for_role_name g role_name key = elim (g.by_name role_name) [
  | none ↦ false
  | some id ↦ has_permission g (id ∷ []) key
]

-- `iter().max()`
max_of : List ℤ → Option ℤ
max_of [] = none
max_of (l ∷ ls) = some (elim (max_of ls) [ none ↦ l | some m ↦ max_ℤ l m ])

unfoldable pub effective_level : RoleGraph → List ℕ → ℤ
unfolding max_of
effective_level g roles = unwrap_or (pos 0) (max_of (filter_map g.level (closure g roles)))
