-- ===== src/Server/Membership/Admins.antt =====
-- server/src/membership.rs, `apply_role`: a lapse never takes the site's last active admin.
use cooperative_systems_spac.Prelude.{
  ℕ, ◌≡◌, refl, ◌≤◌, Bool, true, false, ◌&&◌, not, List, [], ◌∷◌, String, pos, unwrap_or, nat_eq,
  ◌==◌, ==_iff, ==_sym, any, filter, filter_map, contains, length, AreDistinct, leb, ltb_ℤ, ◌⊎◌,
  arith, inl, inr, Bool-cases, Option-cases,
}
use cooperative_systems_spac.Server.Rbac.{RoleGraph, level_of_name, effective_level}
use cooperative_systems_spac.Server.Membership.{
  Calendar, MembershipConfig, roles_for_user, user_is_admin, count_active_admins, tiers,
  set_user_primary_role, apply_role, plan_role_transition,
}

-- What is kept of another user's assignments is all of them.
roles-kept :
    (uid other : ℕ) (tier_ids : List ℕ) (rs : List (ℕ × ℕ))
    → (uid == other) ≡ false
    → roles_for_user (filter (λ (a : ℕ × ℕ). not (a.0 == uid && contains tier_ids a.1)) rs) other
      ≡ roles_for_user rs other
unfolding roles_for_user
roles-kept uid other tier_ids [] h = refl
roles-kept uid other tier_ids (a ∷ rs) h = elim (Bool-cases (a.0 == uid)) [
  | inl mine ↦
      let e : (a.0 == other) ≡ false = rw ((==_iff a.0 uid).0 mine) h in
      ground (arith, roles-kept uid other tier_ids rs h, e)
  | inr others ↦ ground (arith, roles-kept uid other tier_ids rs h)
]

roles-other :
    (graph : RoleGraph) (uid other : ℕ) (name : String) (rs : List (ℕ × ℕ))
    → (uid == other) ≡ false
    → roles_for_user (set_user_primary_role graph uid name rs) other ≡ roles_for_user rs other
unfolding set_user_primary_role roles_for_user
roles-other graph uid other name rs h =
    let kept = roles-kept uid other (filter_map graph.by_name tiers) rs h in
    elim (Option-cases (graph.by_name name)) [
      | inl n ↦ rw (n, set_user_primary_role) kept
      | inr (role_id, e) ↦
          elim (Bool-cases (
            any (λ (a : ℕ × ℕ). a.0 == uid && a.1 == role_id)
              (filter
                (λ (a : ℕ × ℕ). not (a.0 == uid && contains (filter_map graph.by_name tiers) a.1))
                rs))) [
                  | inl there ↦ rw (e, there, set_user_primary_role) kept
                  | inr fresh ↦ rw (e, fresh, set_user_primary_role) (rw h kept)
                ]
    ]

any_apart :
    (p : ℕ → Bool) (x : ℕ) (ys : List ℕ)
    → contains ys x ≡ false
    → 1 ≤ length (filter p ys)
    → any (λ y. p y && not (x == y)) ys ≡ true
any_apart p x [] fresh some_p = ground arith
any_apart p x (y ∷ ys) fresh some_p =
    let apart : (x == y) ≡ false = ground (arith, ==_sym x y) in
    elim (Bool-cases (p y)) [
      | inl passes ↦ rw (passes, apart) refl
      | inr fails ↦ ground (arith, any_apart p x ys)
    ]

-- Where `p` holds of some element, it holds of one that is not `x`, unless `x` is the only one.
pub any_other :
    (p : ℕ → Bool) (x : ℕ) (xs : List ℕ)
    → AreDistinct xs
    → (p x && leb (length (filter p xs)) 1) ≡ false
    → 1 ≤ length (filter p xs)
    → any (λ y. p y && not (x == y)) xs ≡ true
any_other p x [] d h some_p = ground arith
any_other p x (y ∷ ys) d h some_p = elim (Bool-cases (p y)) [
  | inr fails ↦ rw fails (any_other p x ys d.1 (rw fails at h) (rw fails at some_p))
  | inl passes ↦ elim (Bool-cases (x == y)) [
    | inr apart ↦ rw (passes, apart) refl
    | inl same ↦
        let e : x ≡ y = (==_iff x y).0 same in
        let p_x : p x ≡ true = rw e passes in
        let fresh : contains ys x ≡ false = rw e d.0 in
        let more : 1 ≤ length (filter p ys) = ground arith in
        ground (arith, any_apart p x ys fresh more)
  ]
]

pub any_kept :
    (p q : ℕ → Bool) (x : ℕ)
    → ((y : ℕ) → (x == y) ≡ false → q y ≡ p y)
    → (xs : List ℕ) → any (λ y. p y && not (x == y)) xs ≡ true
    → 1 ≤ length (filter q xs)
any_kept p q x same [] h = cc
any_kept p q x same (y ∷ ys) h = elim (Bool-cases (x == y)) [
  | inl here ↦ ground (arith, any_kept p q x same ys)
  | inr apart ↦ ground (arith, same y apart, any_kept p q x same ys)
]

module _ (graph : RoleGraph) (calendar : Calendar) (config : MembershipConfig)
    (active : List ℕ) where
  -- What the guard of the last admin asks.
  abbrev is_last_admin : ℕ → List (ℕ × ℕ) → Bool
  is_last_admin uid rs = user_is_admin graph rs uid && leb (count_active_admins graph active rs) 1

  apply_role-guarded :
      (uid : ℕ) (rs : List (ℕ × ℕ))
      → is_last_admin uid rs ≡ true
      → apply_role graph calendar config active uid false rs ≡ rs
  unfolding apply_role plan_role_transition
  apply_role-guarded uid rs last = rw (last, apply_role) refl

  abbrev lapses : ℕ → List (ℕ × ℕ) → Bool
  lapses uid rs =
      ltb_ℤ (unwrap_or (pos 0) (level_of_name graph config.lapsed_role))
        (effective_level graph (roles_for_user rs uid))

  apply_role-lapsed :
      (uid : ℕ) (rs : List (ℕ × ℕ))
      → is_last_admin uid rs ≡ false
      → (apply_role graph calendar config active uid false rs ≡ rs)
        ⊎ (apply_role graph calendar config active uid false rs
            ≡ set_user_primary_role graph uid config.lapsed_role rs)
  unfolding apply_role plan_role_transition
  apply_role-lapsed uid rs others = elim (Bool-cases (lapses uid rs)) [
    | inl above ↦ inr (rw (others, above, apply_role) refl)
    | inr below ↦ inl (rw (others, below, apply_role) refl)
  ]

  -- A lapse never leaves the site without an active admin: where some active user holds
  -- `admin.access` before, some active user holds it afterwards.
  pub apply_role-keeps_admin :
      (uid : ℕ) (rs : List (ℕ × ℕ))
      → AreDistinct active
      → 1 ≤ count_active_admins graph active rs
      → 1 ≤ count_active_admins graph active (apply_role graph calendar config active uid false rs)
  unfolding count_active_admins user_is_admin
  apply_role-keeps_admin uid rs distinct some_admin = elim (Bool-cases (is_last_admin uid rs)) [
    | inl last ↦ rw (apply_role-guarded uid rs last) some_admin
    | inr others ↦ elim (apply_role-lapsed uid rs others) [
      | inl same ↦ rw same some_admin
      | inr set ↦ rw set (
          any_kept (user_is_admin graph rs)
            (user_is_admin graph (set_user_primary_role graph uid config.lapsed_role rs)) uid
            (λ y apart. rw (roles-other graph uid y config.lapsed_role rs apart) refl) active
            (any_other (user_is_admin graph rs) uid active distinct others some_admin))
    ]
  ]
