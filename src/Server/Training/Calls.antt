-- ===== src/Server/Training/Calls.antt =====
-- server/src/cmi5.rs, `record_statement`: the cases of a call, and what it leaves in the tables.
use cooperative_systems_spac.Prelude.{
  ℕ, Bool, true, false, ◌&&◌, List, [], ◌∷◌, ◌++◌, String, ◌==◌, string_eq, nat_eq, Option, some,
  ok, ◌≡◌, refl, arith, find, any, unwrap_or, or_else, if◌then◌else◌, All, Bool-cases, Option-cases,
  Result-cases, ◌⊎◌, inl, inr,
}
use cooperative_systems_spac.Cmi5.Manifest.{MoveOn, parse_move_on}
use cooperative_systems_spac.Cmi5.Statement.{Statement}
use cooperative_systems_spac.Cmi5.Validation.{
  SessionExpectation, SessionOutcome, SessionState, new, validate_cmi5_statement, apply,
  evaluate_move_on,
}
use cooperative_systems_spac.Cmi5.Validation.Credit.{IsValid}
use cooperative_systems_spac.Server.Training.{
  Cmi5AssignableUnit, Cmi5Registration, Cmi5Statement, TrainingStep, Lrs, Cmi5SessionContext,
}
use cooperative_systems_spac.Server.Training.Statements.{
  expectation, prior, replay, mark_satisfied, grant_step, grant_on_satisfaction, apply_statement,
  record_statement,
}
use cooperative_systems_spac.Server.Training.Grants.{Done, is_grant, Request, serve}

-- What a call leaves in the tables of statements and of units.
abbrev pub Kept : {F64 : Type 0} → Cmi5SessionContext → Statement F64 → Lrs F64 → Lrs F64 → Type 0
Kept session stmt t after =
    (after.units ≡ t.units)
    × ((after.statements ≡ t.statements)
        ⊎ ((id : ℕ) × (after.statements
              ≡ t.statements
                ++ (record {
                  registration_id = session.registration_id;
                  statement_id = id;
                  statement = stmt;
                }
                    ∷ []))))

abbrev pub unit_row :
    {F64 : Type 0}
    → Cmi5SessionContext
    → List (Cmi5AssignableUnit F64)
    → Option (Cmi5AssignableUnit F64)
unit_row {F64} session units = find (λ (u : Cmi5AssignableUnit F64). u.id == session.au_id) units

pub prior-append :
    {F64 : Type 0} (id : ℕ) (rows : List (Cmi5Statement F64)) (row : Cmi5Statement F64)
    → prior id (rows ++ (row ∷ []))
      ≡ (if row.registration_id == id then prior id rows ++ (row.statement ∷ []) else prior id rows)
prior-append id [] row = ground arith
prior-append id (r ∷ rows) row = ground (arith, prior-append id rows row)

pub All-append :
    {F64 : Type 0} (P : Statement F64 → Type 0) (ss : List (Statement F64)) (s : Statement F64)
    → All P ss
    → P s
    → All P (ss ++ (s ∷ []))
All-append P [] s ps p = (p, tt)
All-append P (x ∷ ss) s (px, ps) p = (px, All-append P ss s ps p)

module _ {F64 : Type 0} (step_of : ℕ → Option TrainingStep) (session : Cmi5SessionContext)
    (au : Cmi5AssignableUnit F64) (now : ℕ) where
  mark_satisfied-statements :
      (o : SessionOutcome) (step_id : ℕ) (t : Lrs F64)
      → let done = mark_satisfied step_of session o now (grant_step step_of step_id session au t) in
        (done.1.statements ≡ t.statements) × (done.1.units ≡ t.units)
  unfolding grant_step
  mark_satisfied-statements o step_id t = elim (Option-cases (step_of step_id)) [
    | inl e ↦ rw (e, grant_step) (refl, refl)
    | inr (step, e) ↦ rw (e, grant_step) (refl, refl)
  ]

  -- The grant changes neither the statements nor the units.
  grant_on_satisfaction-statements :
      (o : SessionOutcome) (t : Lrs F64)
      → let done = grant_on_satisfaction step_of session au o now t in
        (done.1.statements ≡ t.statements) × (done.1.units ≡ t.units)
  unfolding grant_on_satisfaction
  grant_on_satisfaction-statements o t = elim (Result-cases (parse_move_on au.move_on)) [
    | inl (e, h) ↦ rw (h, grant_on_satisfaction) (refl, refl)
    | inr (m, h) ↦ elim (Bool-cases (session.launch_mode == "Normal" && evaluate_move_on m o)) [
      | inr f ↦ rw (h, f, grant_on_satisfaction) (refl, refl)
      | inl n ↦ elim (Option-cases au.training_step_id) [
        | inl s ↦ rw (h, n, s, grant_on_satisfaction) (refl, refl)
        | inr (step_id, s) ↦
            elim (Option-cases
              (find (λ (r : Cmi5Registration). r.id == session.registration_id) t.registrations)) [
                | inl g ↦ rw (h, n, s, g, grant_on_satisfaction) (refl, refl)
                | inr (r, g) ↦ elim (Option-cases r.satisfied_at) [
                  | inr (at, q) ↦ rw (h, n, s, g, q, grant_on_satisfaction) (refl, refl)
                  | inl q ↦
                      rw (h, n, s, g, q, grant_on_satisfaction)
                        (mark_satisfied-statements o step_id t)
                ]
              ]
      ]
    ]
  ]

  -- A grant needs a launch for credit, a met criterion, and a step that the unit is bound to.
  grant_on_satisfaction-met :
      (o : SessionOutcome) (t : Lrs F64) (m : MoveOn)
      → parse_move_on au.move_on ≡ ok m
      → is_grant (grant_on_satisfaction step_of session au o now t).0 ≡ true
      → (session.launch_mode == "Normal" && evaluate_move_on m o) ≡ true
  unfolding grant_on_satisfaction
  grant_on_satisfaction-met o t m h granted =
      elim (Bool-cases (session.launch_mode == "Normal" && evaluate_move_on m o)) [
        | inl n ↦ n
        | inr f ↦ absurd (let g = rw (h, f, grant_on_satisfaction) at granted in cc)
      ]

  -- A stored statement was applied to what the session had before it.
  pub apply_statement-granted :
      (id : ℕ) (stmt : Statement F64) (t : Lrs F64) (m : MoveOn)
      → parse_move_on au.move_on ≡ ok m
      → is_grant (apply_statement step_of session au id stmt now t).0 ≡ true
      → (machine : SessionState) × (apply
            (replay new (prior session.registration_id t.statements))
            stmt
          ≡ ok machine)
        × ((session.launch_mode == "Normal" && evaluate_move_on m machine.outcome) ≡ true)
        × ((apply_statement step_of session au id stmt now t).1.statements
            ≡ t.statements
              ++ (record {
                registration_id = session.registration_id;
                statement_id = id;
                statement = stmt;
              }
                  ∷ []))
  unfolding apply_statement
  apply_statement-granted id stmt t m h granted =
      elim (Result-cases (apply (replay new (prior session.registration_id t.statements)) stmt)) [
        | inl (e, a) ↦ absurd (let g = rw (a, apply_statement) at granted in cc)
        | inr (machine, a) ↦
            let g = rw (a, apply_statement) at granted in
            let (stored, _) = grant_on_satisfaction-statements machine.outcome _ in
            (
              machine,
              a,
              grant_on_satisfaction-met machine.outcome _ m h g,
              rw (a, apply_statement) stored,
            )
      ]

  pub apply_statement-Kept :
      (id : ℕ) (stmt : Statement F64) (t : Lrs F64)
      → Kept session stmt t (apply_statement step_of session au id stmt now t).1
  unfolding apply_statement
  apply_statement-Kept id stmt t =
      elim (Result-cases (apply (replay new (prior session.registration_id t.statements)) stmt)) [
        | inl (e, a) ↦ rw (a, apply_statement) (refl, inl refl)
        | inr (machine, a) ↦
            let (s, u) = grant_on_satisfaction-statements machine.outcome _ in
            rw (a, apply_statement) (u, inr (id, s))
      ]

module _ {F64 : Type 0} (lt : F64 → F64 → Bool) (uuid_text : ℕ → String)
    (step_of : ℕ → Option TrainingStep) (session : Cmi5SessionContext) (site_url : String)
    (au : Cmi5AssignableUnit F64) where
  abbrev pub expected : SessionExpectation F64
  expected = expectation uuid_text session site_url au

  module _ (hint : Option ℕ) (fresh : ℕ) (stmt : Statement F64) (now : ℕ) where
    abbrev pub called : Lrs F64 → Done F64
    called t = record_statement lt uuid_text step_of session site_url hint fresh stmt now t

    -- A call is refused, or passed over, or comes to `apply_statement` after the checks.
    abbrev pub Call : Lrs F64 → Done F64 → Type 0
    Call t done =
        ((is_grant done.0 ≡ false) × (done.1 ≡ t))
        ⊎ (IsValid lt expected stmt
            × ((id : ℕ) × (done ≡ apply_statement step_of session au id stmt now t)))

    pub called-Call : (t : Lrs F64) → unit_row session t.units ≡ some au → Call t (called t)
    unfolding record_statement
    called-Call t e = elim (Result-cases (validate_cmi5_statement lt stmt expected)) [
      | inl (v, h) ↦ rw (e, h, record_statement) (inl (refl, refl))
      | inr (u, h) ↦
          let id = unwrap_or fresh (or_else hint stmt.id) in
          elim (Bool-cases
            (any (λ (row : Cmi5Statement F64). row.statement_id == id) t.statements)) [
              | inl a ↦ rw (e, h, a, record_statement) (inl (refl, refl))
              | inr a ↦ inr (h, (id, rw (e, h, a, record_statement) refl))
            ]
    ]

module _ {F64 : Type 0} (lt : F64 → F64 → Bool) (uuid_text : ℕ → String)
    (step_of : ℕ → Option TrainingStep) where
  -- Any call keeps the units, and stores its own statement at most.
  pub serve-Kept :
      (q : Request F64) (t : Lrs F64) → Kept q.session q.stmt t (serve lt uuid_text step_of q t).1
  unfolding record_statement
  serve-Kept q t = elim (Option-cases (unit_row q.session t.units)) [
    | inl e ↦ rw (e, record_statement) (refl, inl refl)
    | inr (au, e) ↦
        by_call au
          (called-Call lt uuid_text step_of q.session q.site_url au q.hint q.fresh q.stmt q.now t e)
  ]
    where
      by_call :
          (au : Cmi5AssignableUnit F64)
          → Call lt uuid_text step_of q.session q.site_url au q.hint q.fresh q.stmt q.now t
              (serve lt uuid_text step_of q t)
          → Kept q.session q.stmt t (serve lt uuid_text step_of q t).1
      by_call au (inl (refused, e)) = rw e (refl, inl refl)
      by_call au (inr (valid, (id, e))) =
          rw e (apply_statement-Kept step_of q.session au q.now id q.stmt t)
