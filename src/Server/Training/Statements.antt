-- ===== src/Server/Training/Statements.antt =====
-- server/src/cmi5.rs, `record_statement`: a statement is checked, applied, stored, and may earn a step.
use cooperative_systems_spac.Prelude.{
  ℕ, Bool, true, false, ◌&&◌, Option, none, some, List, [], ◌∷◌, ◌++◌, map, find, any, String, ◌==◌,
  string_eq, nat_eq, unwrap_or, or_else, Result, ok, err, if◌then◌else◌,
}
use cooperative_systems_spac.Cmi5.Manifest.{parse_move_on}
use cooperative_systems_spac.Cmi5.Statement.{Statement}
use cooperative_systems_spac.Cmi5.Validation.{
  SessionExpectation, SessionOutcome, SessionState, new, validate_cmi5_statement, apply,
  evaluate_move_on,
}
use cooperative_systems_spac.Server.Training.{
  Cmi5Error, Cmi5AssignableUnit, Cmi5Registration, Cmi5Statement, TrainingStep, Lrs,
  Cmi5SessionContext, GrantInfo,
}

abbrev pub then_some : Bool → ℕ → Option ℕ
then_some b now = if b then some now else none

abbrev pub satisfy : ℕ → ℕ → SessionOutcome → Cmi5Registration → Cmi5Registration
satisfy registration_id now outcome r =
    if r.id == registration_id
    then record r {
      satisfied_at = some now;
      passed_at = then_some outcome.passed now;
      completed_at = then_some outcome.completed now;
    }
    else r

module _ {F64 : Type 0} (uuid_text : ℕ → String) where
  unfoldable pub expectation :
      Cmi5SessionContext → String → Cmi5AssignableUnit F64 → SessionExpectation F64
  expectation session site_url au = record {
    actor_home_page = site_url;
    actor_account_name = uuid_text session.user_id;
    registration = session.registration_id;
    activity_id = session.activity_id;
    mastery_score = au.mastery_score;
  }

module _ {F64 : Type 0} where
  -- The statements of a registration.
  abbrev pub prior : ℕ → List (Cmi5Statement F64) → List (Statement F64)
  prior registration_id [] = []
  prior registration_id (row ∷ rows) =
      let rest = prior registration_id rows in
      if row.registration_id == registration_id then row.statement ∷ rest else rest

  -- A statement that does not apply is passed over.
  unfoldable pub replay : SessionState → List (Statement F64) → SessionState
  replay machine [] = machine
  replay machine (s ∷ ss) = elim (apply machine s) [
    | ok next ↦ replay next ss
    | err e ↦ replay machine ss
  ]

module _ {F64 : Type 0} (step_of : ℕ → Option TrainingStep) where
  unfoldable pub grant_step :
      ℕ
      → Cmi5SessionContext
      → Cmi5AssignableUnit F64
      → Lrs F64
      → Result Cmi5Error GrantInfo × Lrs F64
  grant_step step_id session au db = elim (step_of step_id) [
    | none ↦ (err Cmi5Error.step_not_found, db)
    | some step ↦ (
      ok (record {
        user_id = session.user_id;
        au_id = au.id;
        registration_id = session.registration_id;
        training_step_id = step_id;
        tool_id = step.tool_id;
      }),
      record db { completions = (session.user_id, step_id) ∷ db.completions },
    )
  ]

  -- `?` on the grant; the registration is marked as satisfied.
  abbrev pub mark_satisfied :
      Cmi5SessionContext
      → SessionOutcome
      → ℕ
      → Result Cmi5Error GrantInfo × Lrs F64
      → Result Cmi5Error (Option GrantInfo) × Lrs F64
  mark_satisfied session outcome now (err e, next) = (err e, next)
  mark_satisfied session outcome now (ok grant, next) = (
    ok (some grant),
    record next {
      registrations = map (satisfy session.registration_id now outcome) next.registrations;
    },
  )

  -- The fourth part: the grant on satisfaction.
  unfoldable pub grant_on_satisfaction :
      Cmi5SessionContext
      → Cmi5AssignableUnit F64
      → SessionOutcome
      → ℕ
      → Lrs F64
      → Result Cmi5Error (Option GrantInfo) × Lrs F64
  unfolding grant_step
  grant_on_satisfaction session au outcome now db = elim (parse_move_on au.move_on) [
    | err e ↦ (err (Cmi5Error.manifest e), db)
    | ok move_on ↦ elim (session.launch_mode == "Normal" && evaluate_move_on move_on outcome) [
      | false ↦ (ok none, db)
      | true ↦ elim au.training_step_id [
        | none ↦ (ok none, db)
        | some step_id ↦
            elim (find (λ (r : Cmi5Registration). r.id == session.registration_id)
              db.registrations) [
                | none ↦ (err Cmi5Error.diesel, db)
                | some r ↦ elim r.satisfied_at [
                  | some at ↦ (ok none, db)
                  | none ↦ mark_satisfied session outcome now (grant_step step_id session au db)
                ]
              ]
      ]
    ]
  ]

  -- The second and the third part, and on to the fourth.
  unfoldable pub apply_statement :
      Cmi5SessionContext
      → Cmi5AssignableUnit F64
      → ℕ
      → Statement F64
      → ℕ
      → Lrs F64
      → Result Cmi5Error (Option GrantInfo) × Lrs F64
  unfolding replay grant_on_satisfaction
  apply_statement session au statement_id stmt now db =
      elim (apply (replay new (prior session.registration_id db.statements)) stmt) [
        | err v ↦ (err (Cmi5Error.rejected v), db)
        | ok machine ↦
            let row : Cmi5Statement F64 = record {
              registration_id = session.registration_id;
              statement_id = statement_id;
              statement = stmt;
            } in
            grant_on_satisfaction session au machine.outcome now
              (record db { statements = db.statements ++ (row ∷ []) })
      ]

module _ {F64 : Type 0} (lt : F64 → F64 → Bool) (uuid_text : ℕ → String)
    (step_of : ℕ → Option TrainingStep) where
  unfoldable pub record_statement :
      Cmi5SessionContext
      → String
      → Option ℕ
      → ℕ
      → Statement F64
      → ℕ
      → Lrs F64
      → Result Cmi5Error (Option GrantInfo) × Lrs F64
  unfolding expectation apply_statement
  record_statement session site_url hint fresh stmt now db =
      elim (find (λ (u : Cmi5AssignableUnit F64). u.id == session.au_id) db.units) [
        | none ↦ (err Cmi5Error.au_not_found, db)
        | some au ↦
            elim (validate_cmi5_statement lt stmt (expectation uuid_text session site_url au)) [
              | err v ↦ (err (Cmi5Error.rejected v), db)
              | ok u ↦
                  let statement_id = unwrap_or fresh (or_else hint stmt.id) in
                  elim (any (λ (row : Cmi5Statement F64). row.statement_id == statement_id)
                    db.statements) [
                      | true ↦ (ok none, db)
                      | false ↦ apply_statement step_of session au statement_id stmt now db
                    ]
            ]
      ]
