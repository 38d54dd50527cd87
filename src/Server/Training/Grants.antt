-- ===== src/Server/Training/Grants.antt =====
-- server/src/cmi5.rs: a registration earns its step at most once.
use mathlib.Core.Path.{subst, sym}
use cooperative_systems_spac.Prelude.{
  ℕ, suc, ◌≤◌, Bool, true, false, ◌&&◌, List, [], ◌∷◌, String, ◌==◌, string_eq, nat_eq, ==_refl,
  ==_iff, ==_sym, ◌∙◌, Option, none, some, is_some, Result, ok, ◌≡◌, refl, arith, find, any,
  unwrap_or, or_else, map, if◌then◌else◌, Bool-cases, Option-cases, Result-cases, ◌⊎◌, inl, inr,
}
use cooperative_systems_spac.Cmi5.Manifest.{MoveOn, parse_move_on}
use cooperative_systems_spac.Cmi5.Statement.{Statement}
use cooperative_systems_spac.Cmi5.Validation.{
  SessionOutcome, new, validate_cmi5_statement, apply, evaluate_move_on,
}
use cooperative_systems_spac.Server.Training.{
  Cmi5Error, Cmi5AssignableUnit, Cmi5Registration, Cmi5Statement, TrainingStep, Lrs,
  Cmi5SessionContext, GrantInfo,
}
use cooperative_systems_spac.Server.Training.Statements.{
  satisfy, expectation, prior, replay, grant_step, mark_satisfied, grant_on_satisfaction,
  apply_statement, record_statement,
}

abbrev pub is_grant : Result Cmi5Error (Option GrantInfo) → Bool
is_grant (ok (some g)) = true
is_grant _ = false

abbrev pub registration_row : ℕ → List Cmi5Registration → Option Cmi5Registration
registration_row id rows = find (λ (r : Cmi5Registration). r.id == id) rows

abbrev pub is_satisfied_row : Option Cmi5Registration → Bool
is_satisfied_row none = false
is_satisfied_row (some r) = is_some r.satisfied_at

-- The registration has earned its step.
abbrev pub is_satisfied : ℕ → List Cmi5Registration → Bool
is_satisfied id rows = is_satisfied_row (registration_row id rows)

-- Marking a registration leaves no other unsatisfied.
is_satisfied-satisfy :
    (id other now : ℕ) (o : SessionOutcome) (rows : List Cmi5Registration)
    → is_satisfied id (map (satisfy other now o) rows)
      ≡ (if id == other then is_some (registration_row id rows) else is_satisfied id rows)
is_satisfied-satisfy id other now o [] = ground arith
is_satisfied-satisfy id other now o (r ∷ rows) =
    ground (arith, is_satisfied-satisfy id other now o rows)

-- What a call does to the registrations: nothing, or the grant to a registration that had none.
abbrev pub Effect :
    Cmi5SessionContext
    → ℕ
    → List Cmi5Registration
    → Result Cmi5Error (Option GrantInfo)
    → List Cmi5Registration
    → Type 0
Effect session now before result after =
    ((is_grant result ≡ false) × (after ≡ before))
    ⊎ ((o : SessionOutcome) × (is_grant result ≡ true)
        × (is_satisfied session.registration_id before ≡ false)
        × (is_some (registration_row session.registration_id before) ≡ true)
        × (after ≡ map (satisfy session.registration_id now o) before))

abbrev pub Done : Type 0 → Type 0
Done F64 = Result Cmi5Error (Option GrantInfo) × Lrs F64

module _ {F64 : Type 0} (step_of : ℕ → Option TrainingStep) (session : Cmi5SessionContext)
    (now : ℕ) where
  -- The one path to a grant.
  granting :
      (m : MoveOn) (step_id : ℕ) (r : Cmi5Registration) (au : Cmi5AssignableUnit F64)
      (o : SessionOutcome) (t : Lrs F64)
      → parse_move_on au.move_on ≡ ok m
      → (session.launch_mode == "Normal" && evaluate_move_on m o) ≡ true
      → au.training_step_id ≡ some step_id
      → registration_row session.registration_id t.registrations ≡ some r
      → r.satisfied_at ≡ none
      → grant_on_satisfaction step_of session au o now t
        ≡ mark_satisfied step_of session o now (grant_step step_of step_id session au t)
  unfolding grant_on_satisfaction grant_step
  granting m step_id r au o t h n s g q = rw (h, n, s, g, q, grant_on_satisfaction) refl

  -- The effect of what a call comes to.
  EffectOf : Lrs F64 → Done F64 → Type 0
  EffectOf t done = Effect session now t.registrations done.0 done.1.registrations

  mark_satisfied-EffectOf :
      (step_id : ℕ) (au : Cmi5AssignableUnit F64) (o : SessionOutcome) (t : Lrs F64)
      → is_satisfied session.registration_id t.registrations ≡ false
      → is_some (registration_row session.registration_id t.registrations) ≡ true
      → EffectOf t (mark_satisfied step_of session o now (grant_step step_of step_id session au t))
  unfolding EffectOf grant_step
  mark_satisfied-EffectOf step_id au o t fresh known = elim (Option-cases (step_of step_id)) [
    | inl e ↦ rw (e, grant_step) (inl (refl, refl))
    | inr (step, e) ↦ rw (e, grant_step) (inr (o, refl, fresh, known, refl))
  ]

  grant_on_satisfaction-EffectOf :
      (au : Cmi5AssignableUnit F64) (o : SessionOutcome) (t : Lrs F64)
      → EffectOf t (grant_on_satisfaction step_of session au o now t)
  unfolding EffectOf grant_on_satisfaction
  grant_on_satisfaction-EffectOf au o t = elim (Result-cases (parse_move_on au.move_on)) [
    | inl (e, h) ↦ rw (h, grant_on_satisfaction) (inl (refl, refl))
    | inr (m, h) ↦ elim (Bool-cases (session.launch_mode == "Normal" && evaluate_move_on m o)) [
      | inr f ↦ rw (h, f, grant_on_satisfaction) (inl (refl, refl))
      | inl n ↦ elim (Option-cases au.training_step_id) [
        | inl s ↦ rw (h, n, s, grant_on_satisfaction) (inl (refl, refl))
        | inr (step_id, s) ↦
            elim (Option-cases (registration_row session.registration_id t.registrations)) [
              | inl g ↦ rw (h, n, s, g, grant_on_satisfaction) (inl (refl, refl))
              | inr (r, g) ↦ elim (Option-cases r.satisfied_at) [
                | inr (at, q) ↦ rw (h, n, s, g, q, grant_on_satisfaction) (inl (refl, refl))
                | inl q ↦
                    subst (λ x. EffectOf t x) (sym (granting m step_id r au o t h n s g q))
                      (mark_satisfied-EffectOf step_id au o t (rw (g, q) refl) (rw g refl))
              ]
            ]
      ]
    ]
  ]

  apply_statement-EffectOf :
      (au : Cmi5AssignableUnit F64) (statement_id : ℕ) (stmt : Statement F64) (t : Lrs F64)
      → EffectOf t (apply_statement step_of session au statement_id stmt now t)
  unfolding EffectOf apply_statement
  apply_statement-EffectOf au statement_id stmt t =
      elim (Result-cases (apply (replay new (prior session.registration_id t.statements)) stmt)) [
        | inl (e, h) ↦ rw (h, apply_statement) (inl (refl, refl))
        | inr (machine, h) ↦
            rw (h, apply_statement) (grant_on_satisfaction-EffectOf au machine.outcome _)
      ]

module _ {F64 : Type 0} (lt : F64 → F64 → Bool) (uuid_text : ℕ → String)
    (step_of : ℕ → Option TrainingStep) where
  record_statement-Effect :
      (session : Cmi5SessionContext) (site_url : String) (hint : Option ℕ) (fresh : ℕ)
      (stmt : Statement F64) (now : ℕ) (t : Lrs F64)
      → EffectOf step_of session now t
          (record_statement lt uuid_text step_of session site_url hint fresh stmt now t)
  unfolding EffectOf record_statement
  record_statement-Effect session site_url hint fresh stmt now t =
      elim (Option-cases (find (λ (u : Cmi5AssignableUnit F64). u.id == session.au_id) t.units)) [
        | inl e ↦ rw (e, record_statement) (inl (refl, refl))
        | inr (au, e) ↦
            elim (Result-cases
              (validate_cmi5_statement lt stmt (expectation uuid_text session site_url au))) [
                | inl (v, h) ↦ rw (e, h, record_statement) (inl (refl, refl))
                | inr (u, h) ↦
                    let id = unwrap_or fresh (or_else hint stmt.id) in
                    elim (Bool-cases
                      (any (λ (row : Cmi5Statement F64). row.statement_id == id) t.statements)) [
                        | inl a ↦ rw (e, h, a, record_statement) (inl (refl, refl))
                        | inr a ↦
                            rw (e, h, a, record_statement)
                              (apply_statement-EffectOf step_of session now au id stmt t)
                      ]
              ]
      ]

-- A call of the LRS.
pub record Request (F64 : Type 0) : Type 0 where
  pub session : Cmi5SessionContext
  pub site_url : String
  pub hint : Option ℕ
  pub fresh : ℕ
  pub stmt : Statement F64
  pub now : ℕ

-- A registration that has earned its step keeps it, and the call grants nothing to it.
Effect-satisfied :
    (session : Cmi5SessionContext) (now id : ℕ) (before after : List Cmi5Registration)
    (result : Result Cmi5Error (Option GrantInfo))
    → Effect session now before result after
    → is_satisfied id before ≡ true
    → (is_satisfied id after ≡ true) × ((is_grant result && session.registration_id == id) ≡ false)
Effect-satisfied session now id before after result (inl (refused, e)) h = (rw e h, rw refused refl)
Effect-satisfied session now id before after result (inr (o, granted, fresh, known, e)) h =
    elim (Bool-cases (session.registration_id == id)) [
      | inl same ↦
          let p = (==_iff session.registration_id id).0 same in
          let unsatisfied = rw p at fresh in absurd (ground (arith, unsatisfied, h))
      | inr differ ↦
          let other = ==_sym id session.registration_id ∙ differ in
          (
            rw (e, is_satisfied-satisfy id session.registration_id now o before, other) h,
            rw (granted, differ) refl,
          )
    ]

-- A grant to the registration marks it.
Effect-grant :
    (session : Cmi5SessionContext) (now id : ℕ) (before after : List Cmi5Registration)
    (result : Result Cmi5Error (Option GrantInfo))
    → Effect session now before result after
    → (is_grant result && session.registration_id == id) ≡ true
    → is_satisfied id after ≡ true
Effect-grant session now id before after result (inl (refused, e)) h =
    absurd (ground (arith, refused, h))
Effect-grant session now id before after result (inr (o, granted, fresh, known, e)) h =
    let p = (==_iff session.registration_id id).0 (ground (arith, granted, h)) in
    let there = rw p at known in
    rw (e, is_satisfied-satisfy id session.registration_id now o before, p, ==_refl id) there

module _ {F64 : Type 0} (lt : F64 → F64 → Bool) (uuid_text : ℕ → String)
    (step_of : ℕ → Option TrainingStep) where
  abbrev pub serve : Request F64 → Lrs F64 → Done F64
  serve q t =
      record_statement lt uuid_text step_of q.session q.site_url q.hint q.fresh q.stmt q.now t

  -- The calls in their order, and how many of them earn a step for the registration.
  abbrev pub serve_all : List (Request F64) → Lrs F64 → Lrs F64
  serve_all [] t = t
  serve_all (q ∷ qs) t = serve_all qs (serve q t).1

  unfoldable pub grants : ℕ → List (Request F64) → Lrs F64 → ℕ
  grants id [] t = 0
  grants id (q ∷ qs) t =
      let rest = grants id qs (serve q t).1 in
      if is_grant (serve q t).0 && q.session.registration_id == id then suc rest else rest

  effect :
      (q : Request F64) (t : Lrs F64)
      → Effect q.session q.now t.registrations (serve q t).0 (serve q t).1.registrations
  unfolding EffectOf
  effect q t =
      record_statement-Effect lt uuid_text step_of q.session q.site_url q.hint q.fresh q.stmt q.now
        t

  grants-satisfied :
      (id : ℕ) (qs : List (Request F64)) (t : Lrs F64)
      → is_satisfied id t.registrations ≡ true
      → grants id qs t ≡ 0
  unfolding grants
  grants-satisfied id [] t h = refl
  grants-satisfied id (q ∷ qs) t h =
      let (stays, refused) = Effect-satisfied q.session q.now id _ _ _ (effect q t) h in
      rw refused (grants-satisfied id qs (serve q t).1 stays)

  -- However many statements a session reports, in whatever order and with whatever other sessions
  -- between them, its registration earns its step at most once.
  pub grants-le-one : (id : ℕ) (qs : List (Request F64)) (t : Lrs F64) → grants id qs t ≤ 1
  unfolding grants
  grants-le-one id [] t = omega arith
  grants-le-one id (q ∷ qs) t =
      elim (Bool-cases (is_grant (serve q t).0 && q.session.registration_id == id)) [
        | inl granted ↦
            let marked = Effect-grant q.session q.now id _ _ _ (effect q t) granted in
            rw (granted, grants-satisfied id qs (serve q t).1 marked) omega arith
        | inr refused ↦ rw refused (grants-le-one id qs (serve q t).1)
      ]
