-- ===== src/Server/Rbac/Admin/Rows.antt =====
-- The writes of server/src/database.rs that replace or remove rows about a role keep the tables of roles
-- sound.
use cooperative_systems_spac.Prelude.{
  In_of_filter, ℕ, ◌≡◌, refl, sym, ◌∙◌, true, false, not, ◌&&◌, List, [], ◌∷◌, map, String, ◌==◌,
  nat_eq, string_eq, pair_eq, any, filter, find, contains, inl, inr, ◌⊎◌, In, arith,
}
use mathlib.Core.List.{foldl}
use mathlib.Core.Path.{subst}
use cooperative_systems_spac.Server.Rbac.Cycles.Loops.{Chain, Chain-map}
use cooperative_systems_spac.Server.Rbac.Admin.Tables.{Role, Rbac, permission_keys, insert_row}
use cooperative_systems_spac.Server.Rbac.Admin.Stored.{In_of_inserted, In_of_paired}
use cooperative_systems_spac.Server.Rbac.Admin.Sound.{HasRole, Inherits, IsStored}

-- A role that goes with the rows that refer to it.
module _ (id : ℕ) where
  any-others :
      (x : ℕ) (rs : List Role)
      → (x == id) ≡ false
      → any (λ (r : Role). r.id == x) (filter (λ (r : Role). not (r.id == id)) rs)
        ≡ any (λ (r : Role). r.id == x) rs
  any-others x [] h = refl
  any-others x (r ∷ rs) h = ground (arith, any-others x rs h)

  pub find-others :
      (x : ℕ) (rs : List Role)
      → (x == id) ≡ false
      → find (λ (r : Role). r.id == x) (filter (λ (r : Role). not (r.id == id)) rs)
        ≡ find (λ (r : Role). r.id == x) rs
  find-others x [] h = refl
  find-others x (r ∷ rs) h = ground (arith, find-others x rs h)

  abbrev pub without : Rbac → Rbac
  without s = record s {
    roles = filter (λ (r : Role). not (r.id == id)) s.roles;
    role_permissions = filter (λ (g : ℕ × String). not (g.0 == id)) s.role_permissions;
    role_inheritance =
        filter (λ (e : ℕ × ℕ). not (e.0 == id) && not (e.1 == id)) s.role_inheritance;
    user_roles = filter (λ (a : ℕ × ℕ). not (a.1 == id)) s.user_roles;
  }

  pub without-IsStored : (s : Rbac) → IsStored s → IsStored (without s)
  without-IsStored s i = record {
    keyed = λ x m.
        let h = In_of_filter (λ (r : Role). not (r.id == id)) s.roles m in
        find-others x.id s.roles (ground (arith, h.1)) ∙ i.keyed x h.0;
    between = λ r p m.
        let h =
          In_of_filter (λ (e : ℕ × ℕ). not (e.0 == id) && not (e.1 == id)) s.role_inheritance m in
        let k = i.between r p h.0 in
        (
          any-others r s.roles (ground (arith, h.1)) ∙ k.0,
          any-others p s.roles (ground (arith, h.1)) ∙ k.1,
        );
    granted = λ r key m.
        let h = In_of_filter (λ (g : ℕ × String). not (g.0 == id)) s.role_permissions m in
        let k = i.granted r key h.0 in (any-others r s.roles (ground (arith, h.1)) ∙ k.0, k.1);
    acyclic = λ r c. i.acyclic r (Chain-map (λ a b m. (In_of_filter _ s.role_inheritance m).0) c);
  }

contains-ids :
    (rs : List Role) (x : ℕ)
    → contains (map (λ (r : Role). r.id) rs) x ≡ any (λ (r : Role). r.id == x) rs
contains-ids [] x = refl
contains-ids (r ∷ rs) x = ground (arith, contains-ids rs x)

pub HasRole-of_valid :
    (s : Rbac) (id : ℕ) → contains (map (λ (r : Role). r.id) s.roles) id ≡ true → HasRole s id
HasRole-of_valid s id h = sym (contains-ids s.roles id) ∙ h

-- The grants of a role replaced by keys of the catalog.
pub grants-IsStored :
    (s : Rbac) (id : ℕ) (keys : List String)
    → HasRole s id
    → ((k : String) → In k keys → contains (permission_keys s) k ≡ true)
    → IsStored s
    → IsStored (record s {
      role_permissions =
          foldl insert_row
            (filter (λ (g : ℕ × String). not (g.0 == id)) s.role_permissions)
            (map (λ (k : String). (id, k)) keys);
    })
grants-IsStored s id keys has listed i = record {
  keyed = i.keyed;
  between = i.between;
  granted = λ r k m. cases r k (In_of_inserted _ _ m);
  acyclic = i.acyclic;
}
  where
    cases :
        (r : ℕ) (k : String)
        → In (r, k) (filter (λ (g : ℕ × String). not (g.0 == id)) s.role_permissions)
          ⊎ In {A = ℕ × String} (r, k) (map (λ (x : String). (id, x)) keys)
        → HasRole s r × (contains (permission_keys s) k ≡ true)
    cases r k (inl m) = i.granted r k (In_of_filter _ s.role_permissions m).0
    cases r k (inr m) = let h = In_of_paired id keys m in (subst (HasRole s) h.0 has, listed k h.1)

abbrev pub with_parents : ℕ → List ℕ → Rbac → Rbac
with_parents id ps s = record s {
  role_inheritance =
      foldl insert_row (filter (λ (e : ℕ × ℕ). not (e.0 == id)) s.role_inheritance)
        (map (λ (p : ℕ). (id, p)) ps);
}

-- The edges of a role replaced by some to roles that are there, with no loop.
pub parents-IsStored :
    (s : Rbac) (id : ℕ) (ps : List ℕ)
    → HasRole s id
    → ((p : ℕ) → In p ps → HasRole s p)
    → ((r : ℕ) → ¬ Chain (Inherits (with_parents id ps s)) r r)
    → IsStored s
    → IsStored (with_parents id ps s)
parents-IsStored s id ps has there acyclic i = record {
  keyed = i.keyed;
  between = λ r p m. cases r p (In_of_inserted _ _ m);
  granted = i.granted;
  acyclic = acyclic;
}
  where
    cases :
        (r p : ℕ)
        → In (r, p) (filter (λ (e : ℕ × ℕ). not (e.0 == id)) s.role_inheritance)
          ⊎ In {A = ℕ × ℕ} (r, p) (map (λ (x : ℕ). (id, x)) ps)
        → HasRole s r × HasRole s p
    cases r p (inl m) = i.between r p (In_of_filter _ s.role_inheritance m).0
    cases r p (inr m) = let h = In_of_paired id ps m in (subst (HasRole s) h.0 has, there p h.1)
