-- ===== src/Server/Rbac/Admin/Requests.antt =====
-- The requests of server/src/api/rbac_admin.rs keep the tables of roles sound.
use cooperative_systems_spac.Prelude.{
  ℕ, ◌≡◌, refl, false, ◌&&◌, ◌||◌, Option, some, List, [], ◌∷◌, map, String, ℤ, ◌==◌, nat_eq,
  string_eq, pair_eq, any, Bool-cases, inl, inr, arith, ok, Ensures, on_ok, on_err, >>=-Ensures,
  Option-cases, is_some, is_some_and, find-holds, find-In, any_of_In, trim, has_no_chars,
}
use cooperative_systems_spac.Server.Rbac.Admin.Tables.{
  Role, Rbac, AuditEvent, load, get_role, changed, audit, db_create_role, db_update_role,
  db_delete_role,
}
use cooperative_systems_spac.Server.Rbac.Admin.Sound.{
  HasRole, IsSound, reload_rbac-IsSound, create-IsStored, changed-id, map-IsStored,
}
use cooperative_systems_spac.Server.Rbac.Admin.{is_negative, create_role, update_role, delete_role}
use cooperative_systems_spac.Server.Rbac.Admin.Rows.{without, without-IsStored}

-- What is handed to the audit logger changes nothing of this.
pub audit-IsSound : (e : AuditEvent) (s : Rbac) → IsSound s → IsSound (audit e s)
unfolding load
audit-IsSound e s i = record {
  stored = record {
    keyed = i.stored.keyed;
    between = i.stored.between;
    granted = i.stored.granted;
    acyclic = i.stored.acyclic;
  };
  cached = i.cached;
}

pub HasRole-get_role : (s : Rbac) (id : ℕ) (r : Role) → get_role s id ≡ some r → HasRole s id
HasRole-get_role s id r h =
    any_of_In (λ (x : Role). x.id == id) s.roles (find-In (λ (x : Role). x.id == id) s.roles h)
      (find-holds (λ (x : Role). x.id == id) s.roles h)

-- The tables of a result, and of a result beside the role that it is about.
abbrev pub Tabled : Rbac × Role → Type 0
Tabled r = IsSound r.0

not_any_or :
    (name : String) (id : ℕ) (rs : List Role)
    → any (λ (r : Role). r.name == name || r.id == id) rs ≡ false
    → any (λ (r : Role). r.id == id) rs ≡ false
not_any_or name id [] h = refl
not_any_or name id (r ∷ rs) h = ground (arith, not_any_or name id rs)

db_create_role-IsSound :
    (now id : ℕ) (name description : String) (level : ℤ) (s : Rbac)
    → IsSound s
    → Ensures Tabled (db_create_role now id name description level s)
unfolding db_create_role
db_create_role-IsSound now id name description level s i =
    elim (Bool-cases (any (λ (r : Role). r.name == name || r.id == id) s.roles)) [
      | inl taken ↦ rw taken on_err
      | inr free ↦ rw free (
          on_ok (
            reload_rbac-IsSound _ (create-IsStored s _ (not_any_or name id s.roles free) i.stored)))
    ]

pub create_role-IsSound :
    (admin now fresh : ℕ) (name description : String) (level : ℤ) (s : Rbac)
    → IsSound s
    → Ensures Tabled (create_role admin now fresh name description level s)
unfolding create_role
create_role-IsSound admin now fresh name description level s i =
    elim (Bool-cases (has_no_chars (trim name))) [
      | inl e ↦ rw e on_err
      | inr e ↦ rw e (elim (Bool-cases (is_negative level)) [
        | inl f ↦ rw f on_err
        | inr f ↦ rw f (
            >>=-Ensures Tabled Tabled
              (db_create_role now fresh (trim name) (trim description) level s)
              (λ r. ok (audit (AuditEvent.role_created admin r.1.id r.1.name r.1.level) r.0, r.1))
              (db_create_role-IsSound now fresh (trim name) (trim description) level s i)
              (λ r h. on_ok (audit-IsSound _ r.0 h)))
      ])
    ]

db_update_role-IsSound :
    (now id : ℕ) (description : Option String) (level : Option ℤ) (s : Rbac)
    → IsSound s
    → Ensures Tabled (db_update_role now id description level s)
unfolding db_update_role
db_update_role-IsSound now id description level s i =
    let c = changed now id description level in
    let s' = record s { roles = map c s.roles } in
    elim (Option-cases (get_role s' id)) [
      | inl none_there ↦ rw none_there on_err
      | inr (role, there) ↦ rw there (
          on_ok (
            reload_rbac-IsSound s'
              (map-IsStored c (λ r. changed-id now id description level r) s i.stored)))
    ]

pub update_role-IsSound :
    (admin now id : ℕ) (description : Option String) (level : Option ℤ) (s : Rbac)
    → IsSound s
    → Ensures Tabled (update_role admin now id description level s)
unfolding update_role
update_role-IsSound admin now id description level s i = elim (Option-cases (get_role s id)) [
  | inl e ↦ rw e on_err
  | inr (existing, e) ↦ rw e (elim (Bool-cases (existing.is_system && is_some level)) [
    | inl f ↦ rw f on_err
    | inr f ↦ rw f (elim (Bool-cases (is_some_and is_negative level)) [
      | inl g ↦ rw g on_err
      | inr g ↦ rw g (
          >>=-Ensures Tabled Tabled (db_update_role now id description level s)
            (λ r. ok (audit (AuditEvent.role_updated admin r.1.id r.1.name r.1.level) r.0, r.1))
            (db_update_role-IsSound now id description level s i)
            (λ r h. on_ok (audit-IsSound _ r.0 h)))
    ])
  ])
]

pub delete_role-IsSound :
    (admin id : ℕ) (s : Rbac) → IsSound s → Ensures IsSound (delete_role admin id s)
unfolding delete_role db_delete_role
delete_role-IsSound admin id s i = elim (Option-cases (get_role s id)) [
  | inl e ↦ rw e on_err
  | inr (existing, e) ↦ rw e (elim (Bool-cases existing.is_system) [
    | inl f ↦ rw f on_err
    | inr f ↦ rw f (
        on_ok
          (audit-IsSound _ _ (reload_rbac-IsSound (without id s) (without-IsStored id s i.stored))))
  ])
]
