-- ===== src/Server/Rbac/Admin/Protected.antt =====
-- server/src/api/rbac_admin.rs: any sequence of requests and the roles of the system.
use cooperative_systems_spac.Prelude.{
  ℕ, refl, ◌∙◌, not, List, [], ◌∷◌, map, String, nat_eq, string_eq, pair_eq, find, contains,
  Bool-cases, inl, inr, Result, ok, err, Ensures, on_ok, on_err, >>=-Ensures, Option-cases,
}
use cooperative_systems_spac.Server.Rbac.{from_rows}
use cooperative_systems_spac.Server.Rbac.Cycles.{has_cycle}
use cooperative_systems_spac.Server.Rbac.Admin.Tables.{
  ApiError, Role, Rbac, row_of, get_role, permission_keys, db_set_role_permissions,
  db_set_role_inheritance,
}
use cooperative_systems_spac.Server.Rbac.Admin.Sound.{IsSound}
use cooperative_systems_spac.Server.Rbac.Admin.{
  create_role, update_role, set_role_permissions, set_role_inheritance, keys_of, parents_of,
  edges_after, Request, answer, answer_all, settled,
}
use cooperative_systems_spac.Server.Rbac.Admin.Answers.{answer-IsSound, settled-IsSound}
use cooperative_systems_spac.Server.Rbac.Admin.System.{
  KeepsSystem, KeepsSystem-refl, TabledKeeps, create_role-KeepsSystem, update_role-KeepsSystem,
  delete_role-KeepsSystem,
}

set_role_permissions-KeepsSystem :
    (admin id : ℕ) (permissions : List String) (s : Rbac)
    → Ensures (KeepsSystem s) (set_role_permissions admin id permissions s)
unfolding set_role_permissions db_set_role_permissions
set_role_permissions-KeepsSystem admin id permissions s =
    let keys = keys_of permissions in
    elim (Option-cases (get_role s id)) [
      | inl e ↦ rw e on_err
      | inr (existing, e) ↦
          rw e
            (elim (Option-cases
              (find (λ (k : String). not (contains (permission_keys s) k)) keys)) [
                | inr (unknown, f) ↦ rw f on_err
                | inl f ↦ rw f (on_ok (KeepsSystem-refl s _ refl))
              ])
    ]

set_role_inheritance-KeepsSystem :
    (uuid_text : ℕ → String) (admin id : ℕ) (inherits : List ℕ) (s : Rbac)
    → Ensures (KeepsSystem s) (set_role_inheritance uuid_text admin id inherits s)
unfolding set_role_inheritance db_set_role_inheritance
set_role_inheritance-KeepsSystem uuid_text admin id inherits s =
    let valid = map (λ (r : Role). r.id) s.roles in
    let ps = parents_of inherits in
    elim (Bool-cases (contains valid id)) [
      | inr e ↦ rw e on_err
      | inl e ↦ rw e (elim (Bool-cases (contains ps id)) [
        | inl f ↦ rw f on_err
        | inr f ↦ rw f (elim (Option-cases (find (λ (p : ℕ). not (contains valid p)) ps)) [
          | inr (unknown, g) ↦ rw g on_err
          | inl g ↦
              rw g
                (elim (Bool-cases
                  (has_cycle (from_rows (map row_of s.roles) [] (edges_after id ps s)))) [
                    | inl h ↦ rw h on_err
                    | inr h ↦ rw h (on_ok (KeepsSystem-refl s _ refl))
                  ])
        ])
      ])
    ]

answer-KeepsSystem :
    (uuid_text : ℕ → String) (q : Request) (s : Rbac)
    → IsSound s
    → Ensures (KeepsSystem s) (answer uuid_text q s)
unfolding answer
answer-KeepsSystem u (Request.create admin now fresh name description level) s i =
    >>=-Ensures (TabledKeeps s) (KeepsSystem s)
      (create_role admin now fresh name description level s) (λ r. ok r.0)
      (create_role-KeepsSystem admin now fresh name description level s) (λ r h. on_ok h)
answer-KeepsSystem u (Request.update admin now id description level) s i =
    >>=-Ensures (TabledKeeps s) (KeepsSystem s) (update_role admin now id description level s)
      (λ r. ok r.0) (update_role-KeepsSystem admin now id description level s i) (λ r h. on_ok h)
answer-KeepsSystem u (Request.delete admin id) s i = delete_role-KeepsSystem admin id s i
answer-KeepsSystem u (Request.set_permissions admin id permissions) s i =
    set_role_permissions-KeepsSystem admin id permissions s
answer-KeepsSystem u (Request.set_inheritance admin id inherits) s i =
    set_role_inheritance-KeepsSystem u admin id inherits s

settled-KeepsSystem :
    (s : Rbac) (r : Result ApiError Rbac) → Ensures (KeepsSystem s) r → KeepsSystem s (settled s r)
settled-KeepsSystem s (ok s') (Ensures.on_ok h) = h
settled-KeepsSystem s (err e) h = KeepsSystem-refl s s refl

-- Where the tables are sound, each role of the system is there after any sequence of requests, one at a
-- time, as a role of the system with the same id, name and level.
pub answer_all-KeepsSystem :
    (uuid_text : ℕ → String) (qs : List Request) (s : Rbac)
    → IsSound s
    → KeepsSystem s (answer_all uuid_text qs s)
unfolding answer_all
answer_all-KeepsSystem u [] s i = KeepsSystem-refl s s refl
answer_all-KeepsSystem u (q ∷ qs) s i =
    let s' = settled s (answer u q s) in
    let now = settled-KeepsSystem s (answer u q s) (answer-KeepsSystem u q s i) in
    let later =
      answer_all-KeepsSystem u qs s'
        (settled-IsSound s (answer u q s) i (answer-IsSound u q s i)) in
    record {
      kept = λ x m t.
          let (y, my, a, b, c, d) = now.kept x m t in
          let (z, mz, a', b', c', d') = later.kept y my d in (z, mz, a' ∙ a, b' ∙ b, c' ∙ c, d');
    }
