-- ===== src/Server/Rbac/Examples.antt =====
-- A role graph with the seeded ladder and a cycle, and what its roles may do.
use cooperative_systems_spac.Prelude.{◌≡◌, refl, true, [], ◌∷◌, pos, ◌↔◌, In, Any}
use cooperative_systems_spac.Server.Rbac.{
  RoleGraph, from_rows, parents, closure, has_permission, effective_level,
}
use cooperative_systems_spac.Server.Rbac.Closure.{Reaches, closure_iff}

-- admin inherits staff, staff inherits guest, and guest, wrongly, admin.
abbrev ladder : RoleGraph
unfolding from_rows
ladder =
    from_rows
      (record { id = 1; name = "guest"; level = pos 1 }
        ∷ record { id = 4; name = "staff"; level = pos 4 }
        ∷ record { id = 5; name = "admin"; level = pos 5 }
        ∷ [])
      ((1, "door.view") ∷ (4, "door.unlock.remote") ∷ []) ((5, 4) ∷ (4, 1) ∷ (1, 5) ∷ [])

closure_of_admin : closure ladder (5 ∷ []) ≡ 1 ∷ 4 ∷ 5 ∷ []
unfolding closure from_rows
closure_of_admin = refl

closure_iff_example : In 1 (closure ladder (5 ∷ [])) ↔ Reaches ladder (5 ∷ []) 1
closure_iff_example = closure_iff ladder (5 ∷ []) 1

staff_views : has_permission ladder (4 ∷ []) "door.view" ≡ true
unfolding has_permission closure from_rows
staff_views = refl

admin_inherits_staff : In 4 (parents ladder 5)
unfolding from_rows
admin_inherits_staff = Any.head refl

staff_level : effective_level ladder (4 ∷ []) ≡ pos 5
unfolding effective_level closure from_rows
staff_level = refl
