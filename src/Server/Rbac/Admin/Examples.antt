-- ===== src/Server/Rbac/Admin/Examples.antt =====
-- Three roles of the system in a ladder, a role made beside them, and requests that are granted and
-- refused.
use cooperative_systems_spac.Prelude.{
  ℕ, ◌≡◌, refl, Bool, true, false, some, List, [], ◌∷◌, pos, String, In, Any, ◌↔◌,
}
use cooperative_systems_spac.Prelude.{◌&&◌, ◌==◌, nat_eq, string_eq, any, all_at, contains, arith}
use cooperative_systems_spac.Server.Rbac.{RoleGraph, empty_graph, from_rows}
use cooperative_systems_spac.Server.Rbac.Cycles.{has_cycle}
use cooperative_systems_spac.Server.Rbac.Cycles.Loops.{Chain}
use cooperative_systems_spac.Server.Rbac.Cycles.Search.{Parent}
use cooperative_systems_spac.Server.Rbac.Cycles.Found.{has_cycle_iff}
use cooperative_systems_spac.Server.Rbac.Admin.Tables.{
  Role, Rbac, load, reload_rbac, get_role, permission_keys,
}
use cooperative_systems_spac.Server.Rbac.Admin.Sound.{IsStored, IsSound, reload_rbac-IsSound}
use cooperative_systems_spac.Server.Rbac.Admin.{Request, answer_all}
use cooperative_systems_spac.Server.Rbac.Admin.Answers.{loaded-no_loop, answer_all-IsSound}
use cooperative_systems_spac.Server.Rbac.Admin.System.{KeepsSystem}
use cooperative_systems_spac.Server.Rbac.Admin.Protected.{answer_all-KeepsSystem}

abbrev system_role : ℕ → String → ℕ → Role
system_role id name level = record {
  id = id;
  name = name;
  description = "";
  is_system = true;
  level = pos level;
  created_at = 0;
  updated_at = 0;
}

abbrev seeded : Rbac
seeded = record {
  permissions = ("door.view", "") ∷ ("admin.access", "") ∷ [];
  roles = system_role 1 "member" 2 ∷ system_role 2 "staff" 3 ∷ system_role 3 "admin" 4 ∷ [];
  role_permissions = (1, "door.view") ∷ (3, "admin.access") ∷ [];
  role_inheritance = (2, 1) ∷ (3, 2) ∷ [];
  user_roles = [];
  rbac_graph = empty_graph;
  audited = [];
}

abbrev seven : ℕ → String
seven id = "7"

abbrev requests : List Request
requests =
    Request.create 9 50 4 " keyholder " "" (pos 2)
    ∷ Request.set_inheritance 9 4 (3 ∷ 1 ∷ 3 ∷ [])
    ∷ Request.set_inheritance 9 1 (4 ∷ [])
    ∷ Request.set_permissions 9 4 ("door.view" ∷ [])
    ∷ Request.delete 9 3
    ∷ []

-- What a test finds of every row holds of each.
seeded-keyed : (x : Role) → In x seeded.roles → get_role seeded x.id ≡ some x
seeded-keyed x (Any.head e) = rw (← e) refl
seeded-keyed x (Any.tail (Any.head e)) = rw (← e) refl
seeded-keyed x (Any.tail (Any.tail (Any.head e))) = rw (← e) refl
seeded-keyed x (Any.tail (Any.tail (Any.tail m))) = elim m [ ]

abbrev is_between : ℕ × ℕ → Bool
is_between e =
    any (λ (r : Role). r.id == e.0) seeded.roles && any (λ (r : Role). r.id == e.1) seeded.roles

abbrev is_granted : ℕ × String → Bool
is_granted g = any (λ (r : Role). r.id == g.0) seeded.roles && contains (permission_keys seeded) g.1

both : (a b : Bool) → (a && b) ≡ true → (a ≡ true) × (b ≡ true)
both a b h = ground arith

seeded-has_cycle : has_cycle (load seeded) ≡ false
unfolding has_cycle load
seeded-has_cycle = refl

seeded-IsStored : IsStored seeded
seeded-IsStored = record {
  keyed = seeded-keyed;
  between = λ r p m. both _ _ (all_at is_between seeded.role_inheritance refl m);
  granted = λ r k m. both _ _ (all_at is_granted seeded.role_permissions refl m);
  acyclic = loaded-no_loop seeded seeded-has_cycle;
}

seeded-IsSound : IsSound (reload_rbac seeded)
seeded-IsSound = reload_rbac-IsSound seeded seeded-IsStored

answer_all-IsSound_example : IsSound (answer_all seven requests (reload_rbac seeded))
answer_all-IsSound_example = answer_all-IsSound seven requests (reload_rbac seeded) seeded-IsSound

answer_all-KeepsSystem_example :
    KeepsSystem (reload_rbac seeded) (answer_all seven requests (reload_rbac seeded))
answer_all-KeepsSystem_example =
    answer_all-KeepsSystem seven requests (reload_rbac seeded) seeded-IsSound

-- The edge back is refused, and so is the removal of a role of the system.
edges_then :
    (answer_all seven requests (reload_rbac seeded)).role_inheritance
    ≡ (2, 1) ∷ (3, 2) ∷ (4, 1) ∷ (4, 3) ∷ []
unfolding answer_all has_cycle
edges_then = refl

-- The ladder with an edge back.
abbrev knotted : RoleGraph
unfolding from_rows
knotted = from_rows [] [] ((5, 4) ∷ (4, 1) ∷ (1, 5) ∷ [])

has_cycle_iff_example : (has_cycle knotted ≡ true) ↔ ((x : ℕ) × Chain (Parent knotted) x x)
has_cycle_iff_example = has_cycle_iff knotted

knotted-has_cycle : has_cycle knotted ≡ true
unfolding has_cycle from_rows
knotted-has_cycle = refl
