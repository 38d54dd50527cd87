-- ===== src/Server/Rbac/Admin/Answers.antt =====
-- The requests of server/src/api/rbac_admin.rs about permissions and inheritance, and any sequence of
-- requests, keep the tables of roles sound.
use cooperative_systems_spac.Prelude.{
  In-append, ℕ, ◌≡◌, true, false, not, List, [], ◌∷◌, map, String, ◌==◌, nat_eq, string_eq, pair_eq,
  filter, find, contains, Bool-cases, inl, inr, In, Result, ok, err, Ensures, on_ok, on_err,
  >>=-Ensures, Option-cases,
}
use cooperative_systems_spac.Server.Rbac.{RoleRow, from_rows}
use cooperative_systems_spac.Server.Rbac.Cycles.{has_cycle}
use cooperative_systems_spac.Server.Rbac.Cycles.Loops.{Chain, Chain-map}
use cooperative_systems_spac.Server.Rbac.Cycles.Search.{Parent}
use cooperative_systems_spac.Server.Rbac.Cycles.Found.{has_cycle_iff}
use cooperative_systems_spac.Server.Rbac.Admin.Tables.{
  ApiError, Role, Rbac, row_of, load, get_role, permission_keys, db_set_role_permissions,
  db_set_role_inheritance,
}
use cooperative_systems_spac.Server.Rbac.Admin.Stored.{In_of_inserted, passes, In_parents-from_rows}
use cooperative_systems_spac.Server.Rbac.Admin.Sound.{Inherits, IsSound, reload_rbac-IsSound}
use cooperative_systems_spac.Server.Rbac.Admin.{
  create_role, update_role, set_role_permissions, set_role_inheritance, keys_of, parents_of,
  edges_after, Request, answer, answer_all, settled,
}
use cooperative_systems_spac.Server.Rbac.Admin.Rows.{
  grants-IsStored, with_parents, parents-IsStored, HasRole-of_valid,
}
use cooperative_systems_spac.Server.Rbac.Admin.Requests.{
  Tabled, audit-IsSound, HasRole-get_role, create_role-IsSound, update_role-IsSound,
  delete_role-IsSound,
}

set_role_permissions-IsSound :
    (admin id : ℕ) (permissions : List String) (s : Rbac)
    → IsSound s
    → Ensures IsSound (set_role_permissions admin id permissions s)
unfolding set_role_permissions db_set_role_permissions
set_role_permissions-IsSound admin id permissions s i =
    let keys = keys_of permissions in
    elim (Option-cases (get_role s id)) [
      | inl e ↦ rw e on_err
      | inr (existing, e) ↦
          rw e
            (elim (Option-cases
              (find (λ (k : String). not (contains (permission_keys s) k)) keys)) [
                | inr (unknown, f) ↦ rw f on_err
                | inl f ↦ rw f (
                    on_ok (
                      audit-IsSound _ _ (
                        reload_rbac-IsSound _ (
                          grants-IsStored s id keys (HasRole-get_role s id existing e)
                            (passes (contains (permission_keys s)) keys f) i.stored))))
              ])
    ]

-- A graph without a cycle rules out a loop in the rows that it is made of.
rows_no_loop :
    (roles : List RoleRow) (perms : List (ℕ × String)) (edges : List (ℕ × ℕ))
    → has_cycle (from_rows roles perms edges) ≡ false
    → (r : ℕ) → ¬ Chain (λ a b. In (a, b) edges) r r
rows_no_loop roles perms edges h r c =
    let g = from_rows roles perms edges in
    let chain : Chain (Parent g) r r =
      Chain-map (λ a b m. In_parents-from_rows roles perms edges a b m) c in
    let yes : has_cycle g ≡ true = (has_cycle_iff g).1 (r, chain) in cc (yes, h)

pub loaded-no_loop : (s : Rbac) → has_cycle (load s) ≡ false → (r : ℕ) → ¬ Chain (Inherits s) r r
unfolding load
loaded-no_loop s h = rows_no_loop (map row_of s.roles) s.role_permissions s.role_inheritance h

-- What the request checks in memory rules out a loop in the rows that it writes.
no_loop :
    (s : Rbac) (id : ℕ) (parents : List ℕ)
    → has_cycle (from_rows (map row_of s.roles) [] (edges_after id parents s)) ≡ false
    → (r : ℕ) → ¬ Chain (Inherits (with_parents id parents s)) r r
unfolding edges_after
no_loop s id ps h r c =
    let others = filter (λ (e : ℕ × ℕ). not (e.0 == id)) s.role_inheritance in
    let own : List (ℕ × ℕ) = map (λ (p : ℕ). (id, p)) ps in
    rows_no_loop (map row_of s.roles) [] (edges_after id ps s) h r
      (Chain-map (λ a b m. In-append others own (In_of_inserted own others m)) c)

set_role_inheritance-IsSound :
    (uuid_text : ℕ → String) (admin id : ℕ) (inherits : List ℕ) (s : Rbac)
    → IsSound s
    → Ensures IsSound (set_role_inheritance uuid_text admin id inherits s)
unfolding set_role_inheritance db_set_role_inheritance
set_role_inheritance-IsSound uuid_text admin id inherits s i =
    let valid = map (λ (r : Role). r.id) s.roles in
    let ps = parents_of inherits in
    elim (Bool-cases (contains valid id)) [
      | inr e ↦ rw e on_err
      | inl e ↦ rw e (elim (Bool-cases (contains ps id)) [
        | inl f ↦ rw f on_err
        | inr f ↦ rw f (elim (Option-cases (find (λ (p : ℕ). not (contains valid p)) ps)) [
          | inr (unknown, g) ↦ rw g on_err
          | inl g ↦
              rw g
                (elim (Bool-cases
                  (has_cycle (from_rows (map row_of s.roles) [] (edges_after id ps s)))) [
                    | inl h ↦ rw h on_err
                    | inr h ↦ rw h (
                        on_ok (
                          audit-IsSound _ _ (
                            reload_rbac-IsSound (with_parents id ps s) (
                              parents-IsStored s id ps (HasRole-of_valid s id e)
                                (λ p m. HasRole-of_valid s p (passes (contains valid) ps g p m))
                                (no_loop s id ps h) i.stored))))
                  ])
        ])
      ])
    ]

pub answer-IsSound :
    (uuid_text : ℕ → String) (q : Request) (s : Rbac)
    → IsSound s
    → Ensures IsSound (answer uuid_text q s)
unfolding answer
answer-IsSound u (Request.create admin now fresh name description level) s i =
    >>=-Ensures Tabled IsSound (create_role admin now fresh name description level s) (λ r. ok r.0)
      (create_role-IsSound admin now fresh name description level s i) (λ r h. on_ok h)
answer-IsSound u (Request.update admin now id description level) s i =
    >>=-Ensures Tabled IsSound (update_role admin now id description level s) (λ r. ok r.0)
      (update_role-IsSound admin now id description level s i) (λ r h. on_ok h)
answer-IsSound u (Request.delete admin id) s i = delete_role-IsSound admin id s i
answer-IsSound u (Request.set_permissions admin id permissions) s i =
    set_role_permissions-IsSound admin id permissions s i
answer-IsSound u (Request.set_inheritance admin id inherits) s i =
    set_role_inheritance-IsSound u admin id inherits s i

pub settled-IsSound :
    (s : Rbac) (r : Result ApiError Rbac) → IsSound s → Ensures IsSound r → IsSound (settled s r)
settled-IsSound s (ok s') i (Ensures.on_ok h) = h
settled-IsSound s (err e) i h = i

-- Where the tables are sound, they stay so through any sequence of requests, one at a time, each
-- granted or refused: a role's key finds it, inheritance and grants are between roles and keys that are
-- there, no role inherits from itself over any number of steps, and the graph in memory is that of the
-- tables.
pub answer_all-IsSound :
    (uuid_text : ℕ → String) (qs : List Request) (s : Rbac)
    → IsSound s
    → IsSound (answer_all uuid_text qs s)
unfolding answer_all
answer_all-IsSound u [] s i = i
answer_all-IsSound u (q ∷ qs) s i =
    answer_all-IsSound u qs _ (settled-IsSound s (answer u q s) i (answer-IsSound u q s i))
