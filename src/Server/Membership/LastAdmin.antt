-- ===== src/Server/Membership/LastAdmin.antt =====
-- server/src/api/admin.rs: giving and taking roles never leaves the site without an active admin.
use cooperative_systems_spac.Prelude.{
  ℕ, ◌≡◌, refl, ◌≤◌, ap, String, Bool, true, false, ◌&&◌, List, [], ◌∷◌, ◌++◌, ◌==◌, nat_eq,
  string_eq, pair_eq, ==_iff, filter, contains, leb, length, AreDistinct, Bool-cases, inl, inr,
  arith, In-append, if◌then◌else◌,
}
use cooperative_systems_spac.Server.Rbac.{RoleGraph, has_permission}
use cooperative_systems_spac.Server.Rbac.Closure.{Reaches}
use cooperative_systems_spac.Server.Rbac.Effective.{has_permission_iff}
use cooperative_systems_spac.Server.Membership.{
  roles_for_user, user_is_admin, count_active_admins, admin_access,
}
use cooperative_systems_spac.Server.Membership.Admins.{any_other, any_kept}
use cooperative_systems_spac.Server.Membership.Assignments.{
  db_assign_user_role, db_unassign_user_role, remaining, assign_user_role, drops_last_admin,
  unassign_user_role, Assignment, settled_roles, request, request_all,
}

-- What is left of another user's roles is all of them.
roles-unassigned_other :
    (uid role_id other : ℕ) (rs : List (ℕ × ℕ))
    → (uid == other) ≡ false
    → roles_for_user (db_unassign_user_role uid role_id rs) other ≡ roles_for_user rs other
unfolding roles_for_user db_unassign_user_role
roles-unassigned_other uid role_id other [] h = refl
roles-unassigned_other uid role_id other (a ∷ rs) h = elim (Bool-cases (a.0 == uid)) [
  | inl mine ↦
      let e : (a.0 == other) ≡ false = rw ((==_iff a.0 uid).0 mine) h in
      ground (arith, roles-unassigned_other uid role_id other rs h, e)
  | inr others ↦ ground (arith, roles-unassigned_other uid role_id other rs h)
]

-- What is left of the user's are those that the request counts on.
roles-unassigned :
    (uid role_id : ℕ) (rs : List (ℕ × ℕ))
    → roles_for_user (db_unassign_user_role uid role_id rs) uid ≡ remaining uid role_id rs
unfolding roles_for_user db_unassign_user_role
roles-unassigned uid role_id [] = refl
roles-unassigned uid role_id (a ∷ rs) = ground (arith, roles-unassigned uid role_id rs)

-- More roles have more permissions.
Reaches-more :
    (g : RoleGraph) (roles more : List ℕ) {x : ℕ} → Reaches g roles x → Reaches g (roles ++ more) x
Reaches-more g roles more (Reaches.start i) = Reaches.start (In-append roles more (inl i))
Reaches-more g roles more (Reaches.inherit h i) = Reaches.inherit (Reaches-more g roles more h) i

has_permission-append :
    (g : RoleGraph) (roles more : List ℕ) (key : String)
    → has_permission g roles key ≡ true
    → has_permission g (roles ++ more) key ≡ true
has_permission-append g roles more key h =
    let (r, reached, o) = (has_permission_iff g roles key).0 h in
    (has_permission_iff g (roles ++ more) key).1 (r, Reaches-more g roles more reached, o)

roles-assigned :
    (uid role_id y : ℕ) (rs : List (ℕ × ℕ))
    → roles_for_user (rs ++ (uid, role_id) ∷ []) y
      ≡ roles_for_user rs y ++ (if uid == y then role_id ∷ [] else [])
unfolding roles_for_user
roles-assigned uid role_id y [] = ground arith
roles-assigned uid role_id y (a ∷ rs) = elim (Bool-cases (a.0 == y)) [
  | inl e ↦ rw e (ap (λ (l : List ℕ). a.1 ∷ l) (roles-assigned uid role_id y rs))
  | inr e ↦ rw e (roles-assigned uid role_id y rs)
]

-- Where every element that passes the first test passes the second, some pass the second if some
-- pass the first.
some_more :
    (p q : ℕ → Bool) (xs : List ℕ)
    → ((x : ℕ) → p x ≡ true → q x ≡ true)
    → 1 ≤ length (filter p xs)
    → 1 ≤ length (filter q xs)
some_more p q [] h s = s
some_more p q (x ∷ xs) h s = ground (arith, h x, some_more p q xs h)

module _ (graph : RoleGraph) (users roles active : List ℕ) where
  abbrev HasAdmin : List (ℕ × ℕ) → Type 0
  HasAdmin rs = 1 ≤ count_active_admins graph active rs

  assigned-HasAdmin :
      (uid role_id : ℕ) (rs : List (ℕ × ℕ))
      → HasAdmin rs
      → HasAdmin (db_assign_user_role uid role_id rs)
  unfolding db_assign_user_role count_active_admins user_is_admin
  assigned-HasAdmin uid role_id rs h = elim (Bool-cases (contains rs (uid, role_id))) [
    | inl there ↦ rw there h
    | inr new ↦ rw new (
        some_more (user_is_admin graph rs) (user_is_admin graph (rs ++ (uid, role_id) ∷ [])) active
          (λ y admin. rw (roles-assigned uid role_id y rs) (
            has_permission-append graph (roles_for_user rs y)
              (if uid == y then role_id ∷ [] else []) admin_access admin))
          h)
  ]

  unassigned-HasAdmin :
      (uid role_id : ℕ) (rs : List (ℕ × ℕ))
      → AreDistinct active
      → drops_last_admin graph users roles active uid role_id rs ≡ false
      → HasAdmin rs
      → HasAdmin (db_unassign_user_role uid role_id rs)
  unfolding drops_last_admin count_active_admins user_is_admin
  unassigned-HasAdmin uid role_id rs distinct guarded h =
      let left = db_unassign_user_role uid role_id rs in
      let p = user_is_admin graph rs in
      let q = user_is_admin graph left in
      elim (Bool-cases (has_permission graph (remaining uid role_id rs) admin_access)) [
        | inl still ↦
            some_more p q active
              (λ y admin. elim (Bool-cases (uid == y)) [
                | inl same ↦
                    rw (← (==_iff uid y).0 same) (rw (roles-unassigned uid role_id rs) still)
                | inr apart ↦ rw (roles-unassigned_other uid role_id y rs apart) admin
              ])
              h
        | inr lost ↦
            let others : (p uid && leb (length (filter p active)) 1) ≡ false =
              ground (arith, guarded, lost) in
            any_kept p q uid (λ y apart. rw (roles-unassigned_other uid role_id y rs apart) refl)
              active (any_other p uid active distinct others h)
      ]

  request-HasAdmin :
      (a : Assignment) (rs : List (ℕ × ℕ))
      → AreDistinct active
      → HasAdmin rs
      → HasAdmin (settled_roles rs (request graph users roles active a rs))
  unfolding request assign_user_role unassign_user_role
  request-HasAdmin (Assignment.assign uid role_id) rs distinct h =
      elim (Bool-cases (contains users uid)) [
        | inr e ↦ rw e h
        | inl e ↦ rw e (elim (Bool-cases (contains roles role_id)) [
          | inr f ↦ rw f h
          | inl f ↦ rw f (assigned-HasAdmin uid role_id rs h)
        ])
      ]
  request-HasAdmin (Assignment.unassign uid role_id) rs distinct h =
      elim (Bool-cases (drops_last_admin graph users roles active uid role_id rs)) [
        | inl e ↦ rw e h
        | inr e ↦ rw e (elim (Bool-cases (contains rs (uid, role_id))) [
          | inr f ↦ rw f h
          | inl f ↦ rw f (unassigned-HasAdmin uid role_id rs distinct e h)
        ])
      ]

  -- Where an active user holds `admin.access`, one does after any sequence of requests that give and
  -- take roles, one at a time, each granted or refused.
  pub request_all-keeps_admin :
      (changes : List Assignment) (rs : List (ℕ × ℕ))
      → AreDistinct active
      → 1 ≤ count_active_admins graph active rs
      → 1 ≤ count_active_admins graph active (request_all graph users roles active changes rs)
  unfolding request_all
  request_all-keeps_admin [] rs distinct h = h
  request_all-keeps_admin (a ∷ changes) rs distinct h =
      request_all-keeps_admin changes _ distinct (request-HasAdmin a rs distinct h)
