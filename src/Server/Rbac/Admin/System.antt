-- ===== src/Server/Rbac/Admin/System.antt =====
-- server/src/api/rbac_admin.rs and the roles of the system: no request removes one, renames it or changes
-- its level.
use cooperative_systems_spac.Prelude.{
  In-filter, In-map, In-append, ℕ, ◌≡◌, refl, sym, ap, ◌∙◌, true, false, not, ◌&&◌, ◌||◌, Option,
  none, some, map, String, ℤ, ◌==◌, nat_eq, string_eq, pair_eq, ==_iff, any, Bool-cases, inl, inr,
  In, arith, Ensures, on_ok, on_err, Option-cases, is_some, is_some_and, trim, has_no_chars,
}
use mathlib.Core.Path.{subst}
use cooperative_systems_spac.Server.Rbac.Admin.Tables.{
  Role, Rbac, get_role, changed, db_create_role, db_update_role, db_delete_role,
}
use cooperative_systems_spac.Server.Rbac.Admin.Sound.{IsStored, IsSound, changed-id}
use cooperative_systems_spac.Server.Rbac.Admin.{is_negative, create_role, update_role, delete_role}

-- Each role of the system is there afterwards, with its name and its level.
pub record KeepsSystem (s s' : Rbac) : Type 0 where
  pub kept :
      (x : Role)
      → In x s.roles
      → x.is_system ≡ true
      → (y : Role) × In y s'.roles
        × (y.id ≡ x.id)
        × (y.name ≡ x.name)
        × (y.level ≡ x.level)
        × (y.is_system ≡ true)

pub KeepsSystem-refl : (s s' : Rbac) → s'.roles ≡ s.roles → KeepsSystem s s'
KeepsSystem-refl s s' e = record {
  kept = λ x m t. (x, subst (In x) (sym e) m, refl, refl, refl, t);
}

-- A change keeps the id, the name and the mark of the system, and the level where it gives none.
changed-keeps :
    (now id : ℕ) (description : Option String) (level : Option ℤ) (x : Role)
    → ((x.id == id) ≡ true → is_some level ≡ false)
    → ((changed now id description level x).name ≡ x.name)
      × ((changed now id description level x).level ≡ x.level)
      × ((changed now id description level x).is_system ≡ x.is_system)
changed-keeps now id description none x h = ground arith
changed-keeps now id description (some l) x h = ground (arith, h)

KeepsSystem-map :
    (c : Role → Role) (s s' : Rbac)
    → s'.roles ≡ map c s.roles
    → ((r : Role) → (c r).id ≡ r.id)
    → ((x : Role)
        → In x s.roles
        → x.is_system ≡ true
        → ((c x).name ≡ x.name) × ((c x).level ≡ x.level) × ((c x).is_system ≡ x.is_system))
    → KeepsSystem s s'
KeepsSystem-map c s s' e same keeps = record {
  kept = λ x m t.
      let k = keeps x m t in
      (c x, subst (In (c x)) (sym e) (In-map c s.roles m), same x, k.0, k.1, k.2 ∙ t);
}

abbrev pub TabledKeeps : Rbac → Rbac × Role → Type 0
TabledKeeps s r = KeepsSystem s r.0

pub create_role-KeepsSystem :
    (admin now fresh : ℕ) (name description : String) (level : ℤ) (s : Rbac)
    → Ensures (TabledKeeps s) (create_role admin now fresh name description level s)
unfolding create_role db_create_role
create_role-KeepsSystem admin now fresh name description level s =
    elim (Bool-cases (has_no_chars (trim name))) [
      | inl e ↦ rw e on_err
      | inr e ↦ rw e (elim (Bool-cases (is_negative level)) [
        | inl f ↦ rw f on_err
        | inr f ↦
            rw f
              (elim (Bool-cases
                (any (λ (r : Role). r.name == trim name || r.id == fresh) s.roles)) [
                  | inl g ↦ rw g on_err
                  | inr g ↦ rw g (
                      on_ok (record {
                        kept = λ x m t. (x, In-append s.roles _ (inl m), refl, refl, refl, t);
                      }))
                ])
      ])
    ]

get_role-is_the_one :
    (s : Rbac) (id : ℕ) (existing x : Role)
    → IsStored s
    → In x s.roles
    → get_role s id ≡ some existing
    → (x.id == id) ≡ true
    → existing ≡ x
get_role-is_the_one s id existing x i m e same =
    let found : get_role s id ≡ some x =
      subst (λ (k : ℕ). get_role s k ≡ some x) ((==_iff x.id id).0 same) (i.keyed x m) in
    cc (e, found)

pub update_role-KeepsSystem :
    (admin now id : ℕ) (description : Option String) (level : Option ℤ) (s : Rbac)
    → IsSound s
    → Ensures (TabledKeeps s) (update_role admin now id description level s)
unfolding update_role db_update_role
update_role-KeepsSystem admin now id description level s i =
    let c = changed now id description level in
    elim (Option-cases (get_role s id)) [
      | inl e ↦ rw e on_err
      | inr (existing, e) ↦ rw e (elim (Bool-cases (existing.is_system && is_some level)) [
        | inl f ↦ rw f on_err
        | inr f ↦ rw f (elim (Bool-cases (is_some_and is_negative level)) [
          | inl g ↦ rw g on_err
          | inr g ↦ rw g (elim (Option-cases (get_role (record s { roles = map c s.roles }) id)) [
            | inl h ↦ rw h on_err
            | inr (role, h) ↦ rw h (
                on_ok (
                  KeepsSystem-map c s _ refl (changed-id now id description level) (λ x m t.
                    changed-keeps now id description level x
                      (λ same. no_level x m t existing e same f))))
          ])
        ])
      ])
    ]
  where
    -- A role of the system under the id is the one that the request found.
    no_level :
        (x : Role)
        → In x s.roles
        → x.is_system ≡ true
        → (existing : Role) → get_role s id ≡ some existing
        → (x.id == id) ≡ true
        → (existing.is_system && is_some level) ≡ false
        → is_some level ≡ false
    no_level x m t existing e same f =
        let one = get_role-is_the_one s id existing x i.stored m e same in
        let system : existing.is_system ≡ true = ap (λ (r : Role). r.is_system) one ∙ t in
        ground (arith, system, f)

pub delete_role-KeepsSystem :
    (admin id : ℕ) (s : Rbac) → IsSound s → Ensures (KeepsSystem s) (delete_role admin id s)
unfolding delete_role db_delete_role
delete_role-KeepsSystem admin id s i = elim (Option-cases (get_role s id)) [
  | inl e ↦ rw e on_err
  | inr (existing, e) ↦ rw e (elim (Bool-cases existing.is_system) [
    | inl f ↦ rw f on_err
    | inr f ↦ rw f (
        on_ok (record {
          kept = λ x m t.
              (x, In-filter _ s.roles m (not_this x m t existing e f), refl, refl, refl, t);
        }))
  ])
]
  where
    not_this :
        (x : Role)
        → In x s.roles
        → x.is_system ≡ true
        → (existing : Role) → get_role s id ≡ some existing
        → existing.is_system ≡ false
        → not (x.id == id) ≡ true
    not_this x m t existing e f = elim (Bool-cases (x.id == id)) [
      | inr other ↦ rw other refl
      | inl same ↦
          let one = get_role-is_the_one s id existing x i.stored m e same in
          let system : existing.is_system ≡ true = ap (λ (r : Role). r.is_system) one ∙ t in
          cc (system, f)
    ]
