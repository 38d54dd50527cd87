-- ===== src/Server/Rbac/Admin/Sound.antt =====
-- What holds of the tables of roles in server/src/database.rs between requests, and that each write keeps
-- it.
use cooperative_systems_spac.Prelude.{
  In_of_map, In_of_append, ℕ, ◌≡◌, refl, ap, sym, ◌∙◌, Bool, true, false, Option, some, List, [],
  ◌∷◌, ◌++◌, map, String, ℤ, ◌==◌, nat_eq, string_eq, pair_eq, ==_refl, any, any_append, find,
  contains, Bool-cases, inl, inr, ◌⊎◌, In, Any, arith,
}
use mathlib.Core.Path.{subst}
use cooperative_systems_spac.Server.Rbac.Cycles.Loops.{Chain}
use cooperative_systems_spac.Server.Rbac.Admin.Tables.{
  Role, Rbac, load, reload_rbac, get_role, permission_keys, changed,
}

abbrev pub HasRole : Rbac → ℕ → Type 0
HasRole s id = any (λ (r : Role). r.id == id) s.roles ≡ true

abbrev pub Inherits : Rbac → ℕ → ℕ → Type 0
Inherits s r p = In (r, p) s.role_inheritance

-- The keys of the tables refer to rows that are there, and no role inherits from itself.
pub record IsStored (s : Rbac) : Type 0 where
  pub keyed : (x : Role) → In x s.roles → get_role s x.id ≡ some x
  pub between : (r p : ℕ) → Inherits s r p → HasRole s r × HasRole s p
  pub granted :
      (r : ℕ) (key : String)
      → In (r, key) s.role_permissions
      → HasRole s r × (contains (permission_keys s) key ≡ true)
  pub acyclic : (r : ℕ) → ¬ Chain (Inherits s) r r

-- Besides, the graph in memory is that of the tables.
pub record IsSound (s : Rbac) : Type 0 where
  pub stored : IsStored s
  pub cached : s.rbac_graph ≡ load s

pub reload_rbac-IsSound : (s : Rbac) → IsStored s → IsSound (reload_rbac s)
unfolding load
reload_rbac-IsSound s i = record {
  stored = record {
    keyed = i.keyed;
    between = i.between;
    granted = i.granted;
    acyclic = i.acyclic;
  };
  cached = refl;
}

find-append {ℓ} :
    {A : Type ℓ} (p : A → Bool) (xs ys : List A) → any p xs ≡ false → find p (xs ++ ys) ≡ find p ys
find-append p [] ys h = refl
find-append p (x ∷ xs) ys h = ground (arith, find-append p xs ys)

find-append_left {ℓ} :
    {A : Type ℓ} (p : A → Bool) (xs ys : List A) (y : A)
    → find p xs ≡ some y
    → find p (xs ++ ys) ≡ some y
find-append_left p [] ys y h = cc
find-append_left p (x ∷ xs) ys y h = ground (arith, find-append_left p xs ys y)

-- A new role under an id and a name that no other has.
pub create-IsStored :
    (s : Rbac) (role : Role)
    → any (λ (r : Role). r.id == role.id) s.roles ≡ false
    → IsStored s
    → IsStored (record s { roles = s.roles ++ role ∷ [] })
create-IsStored s role fresh i = record {
  keyed = λ x m. found x (In_of_append s.roles (role ∷ []) m);
  between = λ r p m. let h = i.between r p m in (kept r h.0, kept p h.1);
  granted = λ r k m. let h = i.granted r k m in (kept r h.0, h.1);
  acyclic = i.acyclic;
}
  where
    kept : (r : ℕ) → HasRole s r → any (λ (x : Role). x.id == r) (s.roles ++ role ∷ []) ≡ true
    kept r h = rw (any_append (λ (x : Role). x.id == r) s.roles (role ∷ []), h)

    found :
        (x : Role)
        → In x s.roles ⊎ In x (role ∷ [])
        → find (λ (r : Role). r.id == x.id) (s.roles ++ role ∷ []) ≡ some x
    found x (inl m) =
        find-append_left (λ (r : Role). r.id == x.id) s.roles (role ∷ []) x (i.keyed x m)
    found x (inr (Any.head e)) = rw (← e) (
        rw (find-append (λ (r : Role). r.id == role.id) s.roles (role ∷ []) fresh, ==_refl role.id)
          refl)
    found x (inr (Any.tail m)) = elim m [ ]

pub changed-id :
    (now id : ℕ) (description : Option String) (level : Option ℤ) (r : Role)
    → (changed now id description level r).id ≡ r.id
changed-id now id description level r = ground arith

-- A change of roles that keeps their ids.
module _ (c : Role → Role) (same : (r : Role) → (c r).id ≡ r.id) where
  any-map :
      (x : ℕ) (rs : List Role)
      → any (λ (r : Role). r.id == x) (map c rs) ≡ any (λ (r : Role). r.id == x) rs
  any-map x [] = refl
  any-map x (r ∷ rs) = rw (same r, any-map x rs) refl

  find-map :
      (x : ℕ) (rs : List Role) {y : Role}
      → find (λ (r : Role). r.id == x) rs ≡ some y
      → find (λ (r : Role). r.id == x) (map c rs) ≡ some (c y)
  find-map x [] h = cc
  find-map x (r ∷ rs) {y} h = elim (Bool-cases (r.id == x)) [
    | inl t ↦
        let e : r ≡ y = cc (rw t at h) in
        let t' : ((c r).id == x) ≡ true = rw (same r) t in rw t' (ap (λ (q : Role). some (c q)) e)
    | inr f ↦ rw (same r, f) (find-map x rs (rw f at h))
  ]

  pub map-IsStored : (s : Rbac) → IsStored s → IsStored (record s { roles = map c s.roles })
  map-IsStored s i = record {
    keyed = λ y m. keyed_at (In_of_map c s.roles m);
    between = λ r p m. let h = i.between r p m in (kept r h.0, kept p h.1);
    granted = λ r k m. let h = i.granted r k m in (kept r h.0, h.1);
    acyclic = i.acyclic;
  }
    where
      kept : (r : ℕ) → HasRole s r → any (λ (x : Role). x.id == r) (map c s.roles) ≡ true
      kept r h = any-map r s.roles ∙ h

      keyed_at :
          {y : Role}
          → (x : Role) × In x s.roles × (c x ≡ y)
          → find (λ (r : Role). r.id == y.id) (map c s.roles) ≡ some y
      keyed_at (x, m, e) = rw (← e) (
          subst (λ (k : ℕ). find (λ (r : Role). r.id == k) (map c s.roles) ≡ some (c x))
            (sym (same x)) (find-map x.id s.roles (i.keyed x m)))
