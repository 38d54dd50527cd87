-- ===== src/Server/Membership/Entitlement.antt =====
-- server/src/membership.rs, `apply_role`: what a member who pays may do.
use cooperative_systems_spac.Prelude.{
  ℕ, ◌≡◌, refl, true, ◌&&◌, not, some, List, [], ◌∷◌, String, ℤ, ◌≤ℤ◌, ltb_ℤ, nat_eq, ◌==◌, ==_iff,
  ==_refl, any, filter, filter_map, contains, In, Any, arith, inl, inr, Bool-cases, Option-cases,
}
use cooperative_systems_spac.Server.Rbac.{RoleGraph, level_of_name, effective_level}
use cooperative_systems_spac.Server.Rbac.Closure.{Reaches}
use cooperative_systems_spac.Server.Rbac.Effective.{effective_level-highest}
use cooperative_systems_spac.Server.Membership.{
  Calendar, MembershipConfig, roles_for_user, tiers, set_user_primary_role, apply_role,
  plan_role_transition,
}

assigned :
    (uid role_id : ℕ) (rs : List (ℕ × ℕ))
    → any (λ (a : ℕ × ℕ). a.0 == uid && a.1 == role_id) rs ≡ true
    → In role_id (roles_for_user rs uid)
unfolding roles_for_user
assigned uid role_id [] h = cc
assigned uid role_id (a ∷ rs) h = elim (Bool-cases (a.0 == uid)) [
  | inr others ↦ rw others (assigned uid role_id rs (rw others at h))
  | inl mine ↦ elim (Bool-cases (a.1 == role_id)) [
    | inl same ↦ rw mine (Any.head ((==_iff a.1 role_id).0 same))
    | inr other ↦ rw mine (Any.tail (assigned uid role_id rs (rw (mine, other) at h)))
  ]
]

-- After `set_user_primary_role` the user has the role of the name.
set-assigned :
    (graph : RoleGraph) (uid role_id : ℕ) (name : String) (rs : List (ℕ × ℕ))
    → graph.by_name name ≡ some role_id
    → In role_id (roles_for_user (set_user_primary_role graph uid name rs) uid)
unfolding set_user_primary_role
set-assigned graph uid role_id name rs e =
    let kept =
      filter (λ (a : ℕ × ℕ). not (a.0 == uid && contains (filter_map graph.by_name tiers) a.1))
        rs in
    elim (Bool-cases (any (λ (a : ℕ × ℕ). a.0 == uid && a.1 == role_id) kept)) [
      | inl there ↦ rw (e, there, set_user_primary_role) (assigned uid role_id kept there)
      | inr fresh ↦
          let here : any (λ (a : ℕ × ℕ). a.0 == uid && a.1 == role_id) ((uid, role_id) ∷ kept)
              ≡ true =
            rw (==_refl uid, ==_refl role_id) refl in
          rw (e, fresh, set_user_primary_role) (assigned uid role_id ((uid, role_id) ∷ kept) here)
    ]

module _ (graph : RoleGraph) (calendar : Calendar) (config : MembershipConfig)
    (active : List ℕ) where
  reaches_level :
      (uid role_id : ℕ) (l : ℤ) (rs : List (ℕ × ℕ))
      → graph.by_name config.member_role ≡ some role_id
      → graph.level role_id ≡ some l
      → l
        ≤ℤ effective_level graph
            (roles_for_user (set_user_primary_role graph uid config.member_role rs) uid)
  reaches_level uid role_id l rs e level =
      (effective_level-highest graph _).0 role_id l
        (Reaches.start (set-assigned graph uid role_id config.member_role rs e)) level

  -- Where the configured member role has a level, a user whose membership is granted or renewed has
  -- at least that level afterwards, whatever roles they held.
  pub apply_role-entitled :
      (uid : ℕ) (l : ℤ) (rs : List (ℕ × ℕ))
      → level_of_name graph config.member_role ≡ some l
      → l
        ≤ℤ effective_level graph
            (roles_for_user (apply_role graph calendar config active uid true rs) uid)
  unfolding apply_role plan_role_transition level_of_name
  apply_role-entitled uid l rs named =
      elim (Bool-cases (ltb_ℤ (effective_level graph (roles_for_user rs uid)) l)) [
        | inr enough ↦ rw (named, enough, apply_role) (ground arith)
        | inl below ↦ elim (Option-cases (graph.by_name config.member_role)) [
          | inl n ↦ cc (rw (n, level_of_name) at named)
          | inr (role_id, e) ↦
              rw (named, below, apply_role)
                (reaches_level uid role_id l rs e (rw (e, level_of_name) at named))
        ]
      ]
