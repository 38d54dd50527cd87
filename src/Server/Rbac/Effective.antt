-- ===== src/Server/Rbac/Effective.antt =====
-- What a set of roles may do, and at which level (server/src/rbac.rs), by the roles it reaches.
use cooperative_systems_spac.Prelude.{
  ℕ, ◌≡◌, refl, Bool, true, false, Option, none, some, List, [], ◌∷◌, String, ℤ, pos, ◌≤ℤ◌, max_ℤ,
  arith, inl, inr, ◌⊎◌, ◌↔◌, Option-cases, filter_map, In, Any, In_of_any, any_of_In, unwrap_or,
}
use cooperative_systems_spac.Server.Rbac.{
  RoleGraph, no_perms, parents, closure, has_permission, has_permission_for_role_name,
  effective_permissions_by_names, effective_level, max_of,
}
use cooperative_systems_spac.Server.Rbac.Closure.{Reaches, start, inherit, closure_iff}

-- The role itself holds the permission.
abbrev pub owns : RoleGraph → ℕ → String → Bool
owns g r key = unwrap_or no_perms (g.own_perms r) key

module _ (g : RoleGraph) where
  -- A set of roles has a permission exactly when a role that it reaches owns it.
  pub has_permission_iff :
      (roles : List ℕ) (key : String)
      → (has_permission g roles key ≡ true) ↔ ((r : ℕ) × Reaches g roles r × (owns g r key ≡ true))
  unfolding has_permission
  has_permission_iff roles key = (
    λ h.
        let (r, m, o) = In_of_any (λ r. owns g r key) (closure g roles) h in
        (r, (closure_iff g roles r).0 m, o),
    λ (r, reached, o).
        any_of_In (λ r. owns g r key) (closure g roles) ((closure_iff g roles r).1 reached) o,
  )

  Reaches-from_parent :
      {r p x : ℕ} → In p (parents g r) → Reaches g (p ∷ []) x → Reaches g (r ∷ []) x
  Reaches-from_parent i (start (Any.head e)) = inherit (start (Any.head refl)) (rw (← e) i)
  Reaches-from_parent i (start (Any.tail n)) = elim n [ ]
  Reaches-from_parent i (inherit h j) = inherit (Reaches-from_parent i h) j

  -- A role has every permission of a role that it inherits from.
  pub has_permission-inherited :
      (r p : ℕ) (key : String)
      → In p (parents g r)
      → has_permission g (p ∷ []) key ≡ true
      → has_permission g (r ∷ []) key ≡ true
  has_permission-inherited r p key i h =
      let (x, reached, o) = (has_permission_iff (p ∷ []) key).0 h in
      (has_permission_iff (r ∷ []) key).1 (x, Reaches-from_parent i reached, o)

  by_name_lem :
      (name key : String) (id : ℕ)
      → g.by_name name ≡ some id
      → has_permission_for_role_name g name key ≡ effective_permissions_by_names g (name ∷ []) key
  unfolding has_permission_for_role_name effective_permissions_by_names has_permission
  by_name_lem name key id s =
      let one : filter_map g.by_name (name ∷ []) ≡ id ∷ [] = rw (s, filter_map) in
      rw (s, has_permission_for_role_name) (rw one refl)

  -- The name of a role stands for the role, and an unknown name is refused everything.
  pub has_permission_for_role_name-eq :
      (name key : String)
      → ((g.by_name name ≡ none) × (has_permission_for_role_name g name key ≡ false))
        ⊎ ((id : ℕ) × (g.by_name name ≡ some id)
            × (has_permission_for_role_name g name key
                ≡ effective_permissions_by_names g (name ∷ []) key))
  unfolding has_permission_for_role_name effective_permissions_by_names
  has_permission_for_role_name-eq name key = elim (Option-cases (g.by_name name)) [
    | inl n ↦ inl (n, rw (n, has_permission_for_role_name))
    | inr (id, s) ↦ inr (id, s, by_name_lem name key id s)
  ]

In-filter_map :
    {A B : Type 0} (f : A → Option B) (xs : List A) {a : A} {b : B}
    → In a xs
    → f a ≡ some b
    → In b (filter_map f xs)
In-filter_map f [] m e = elim m [ ]
In-filter_map f (x ∷ xs) {a} {b} (Any.head h) e =
    let e' : f x ≡ some b = rw h e in rw (e', filter_map) (Any.head refl)
In-filter_map f (x ∷ xs) (Any.tail t) e = elim (Option-cases (f x)) [
  | inl n ↦ rw (n, filter_map) (In-filter_map f xs t e)
  | inr (y, s) ↦ rw (s, filter_map) (Any.tail (In-filter_map f xs t e))
]

In_of_filter_map :
    {A B : Type 0} (f : A → Option B) (xs : List A) {b : B}
    → In b (filter_map f xs)
    → (a : A) × In a xs × (f a ≡ some b)
In_of_filter_map f [] m = elim m [ ]
In_of_filter_map {A} {B} f (x ∷ xs) {b} m = elim (Option-cases (f x)) [
  | inl n ↦ let (a, i, e) = In_of_filter_map f xs (rw (n, filter_map) at m) in (a, Any.tail i, e)
  | inr (y, s) ↦ first y s (λ t. In_of_filter_map f xs t) (rw (s, filter_map) at m)
]
  where
    first :
        (y : B)
        → f x ≡ some y
        → (In b (filter_map f xs) → (a : A) × In a xs × (f a ≡ some b))
        → In b (y ∷ filter_map f xs)
        → (a : A) × In a (x ∷ xs) × (f a ≡ some b)
    first y s rest (Any.head e) = (x, Any.head refl, cc)
    first y s rest (Any.tail t) = let (a, i, e) = rest t in (a, Any.tail i, e)

max_of-In : (ls : List ℤ) {m : ℤ} → max_of ls ≡ some m → In m ls
unfolding max_of
max_of-In [] h = cc
max_of-In (l ∷ ls) {m} h = elim (Option-cases (max_of ls)) [
  | inl n ↦ Any.head (cc (rw n at h))
  | inr (k, s) ↦ pick k (max_of-In ls s) (rw s at h)
]
  where
    pick : (k : ℤ) → In k ls → some (max_ℤ l k) ≡ some m → In m (l ∷ ls)
    pick k i e = elim (larger l k) [
      | inl a ↦ Any.head (cc a)
      | inr b ↦ let e' : k ≡ m = cc b in Any.tail (rw e' at i)
    ]
      where
        larger : (a b : ℤ) → (max_ℤ a b ≡ a) ⊎ (max_ℤ a b ≡ b)
        larger a b = ground arith

le-max_of : (ls : List ℤ) {l : ℤ} → In l ls → (m : ℤ) × (max_of ls ≡ some m) × (l ≤ℤ m)
unfolding max_of
le-max_of [] i = elim i [ ]
le-max_of (x ∷ xs) {l} (Any.head e) = elim (Option-cases (max_of xs)) [
  | inl n ↦ (x, rw n refl, rw e (omega arith))
  | inr (k, s) ↦ (max_ℤ x k, rw s refl, rw (← e) (ground arith))
]
le-max_of (x ∷ xs) (Any.tail t) =
    let (k, s, h) = le-max_of xs t in (max_ℤ x k, rw s refl, ground (arith, h))

module _ (g : RoleGraph) (roles : List ℕ) where
  -- The effective level is the highest level among the roles reached, and 0 where none has a level.
  pub effective_level-highest :
      ((r : ℕ) (l : ℤ) → Reaches g roles r → g.level r ≡ some l → l ≤ℤ effective_level g roles)
      × (((r : ℕ) × Reaches g roles r × (g.level r ≡ some (effective_level g roles)))
          ⊎ ((effective_level g roles ≡ pos 0) × ((r : ℕ) → Reaches g roles r → g.level r ≡ none)))
  unfolding effective_level
  effective_level-highest = (bound, reached (max_of levels) refl)
    where
      levels : List ℤ
      levels = filter_map g.level (closure g roles)

      level_In : (r : ℕ) (l : ℤ) → Reaches g roles r → g.level r ≡ some l → In l levels
      level_In r l h e = In-filter_map g.level (closure g roles) ((closure_iff g roles r).1 h) e

      bound :
          (r : ℕ) (l : ℤ)
          → Reaches g roles r
          → g.level r ≡ some l
          → l ≤ℤ unwrap_or (pos 0) (max_of levels)
      bound r l h e = let (m, s, le) = le-max_of levels (level_In r l h e) in rw s le

      reached :
          (o : Option ℤ)
          → max_of levels ≡ o
          → ((r : ℕ) × Reaches g roles r × (g.level r ≡ some (unwrap_or (pos 0) (max_of levels))))
            ⊎ ((unwrap_or (pos 0) (max_of levels) ≡ pos 0)
                × ((r : ℕ) → Reaches g roles r → g.level r ≡ none))
      reached none n = inr (
        rw n refl,
        λ r h. elim (Option-cases (g.level r)) [
          | inl e ↦ e
          | inr (l, e) ↦ let (m, s, le) = le-max_of levels (level_In r l h e) in cc
        ],
      )
      reached (some m) s = inl (
          let (r, i, e) = In_of_filter_map g.level (closure g roles) (max_of-In levels s) in
          (r, (closure_iff g roles r).0 i, rw s e))
