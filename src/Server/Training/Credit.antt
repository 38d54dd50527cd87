-- ===== src/Server/Training/Credit.antt =====
-- server/src/cmi5.rs, `record_statement`: a granted step was earned in its own session.
use cooperative_systems_spac.Prelude.{
  ℕ, Bool, true, false, List, [], ◌∷◌, ◌++◌, String, ◌==◌, string_eq, nat_eq, ==_refl, Option, some,
  ok, ◌≡◌, arith, All, ◌⊎◌, inl, inr,
}
use cooperative_systems_spac.Cmi5.Manifest.{MoveOn, parse_move_on}
use cooperative_systems_spac.Cmi5.Statement.{Statement}
use cooperative_systems_spac.Cmi5.Validation.Credit.{Earned}
use cooperative_systems_spac.Server.Training.{
  Cmi5AssignableUnit, TrainingStep, Lrs, Cmi5SessionContext,
}
use cooperative_systems_spac.Server.Training.Statements.{expectation, prior}
use cooperative_systems_spac.Server.Training.Grants.{is_grant, Request, serve, serve_all}
use cooperative_systems_spac.Server.Training.Earned.{IsKept, apply-Within, met-Earned}
use cooperative_systems_spac.Server.Training.Calls.{
  unit_row, called, Call, called-Call, apply_statement-Kept, apply_statement-granted, serve-Kept,
  prior-append, All-append,
}

module _ {F64 : Type 0} (lt : F64 → F64 → Bool) (uuid_text : ℕ → String)
    (step_of : ℕ → Option TrainingStep) (session : Cmi5SessionContext) (site_url : String)
    (au : Cmi5AssignableUnit F64) where
  abbrev pub Stands : Lrs F64 → Type 0
  Stands t =
      (unit_row session t.units ≡ some au)
      × All (IsKept lt (expectation uuid_text session site_url au))
          (prior session.registration_id t.statements)

  -- A call of the session itself, or of another registration.
  abbrev pub IsCall : Request F64 → Type 0
  IsCall q =
      ((q.session ≡ session) × (q.site_url ≡ site_url))
      ⊎ ((q.session.registration_id == session.registration_id) ≡ false)

  serve_own-Stands :
      (hint : Option ℕ) (fresh : ℕ) (stmt : Statement F64) (now : ℕ) (t : Lrs F64)
      → Stands t
      → Stands (called lt uuid_text step_of session site_url au hint fresh stmt now t).1
  serve_own-Stands hint fresh stmt now t (u, kept) =
      by_call (called-Call lt uuid_text step_of session site_url au hint fresh stmt now t u)
    where
      by_call :
          Call lt uuid_text step_of session site_url au hint fresh stmt now t
            (called lt uuid_text step_of session site_url au hint fresh stmt now t)
          → Stands (called lt uuid_text step_of session site_url au hint fresh stmt now t).1
      by_call (inl (refused, e)) = rw e (u, kept)
      by_call (inr (valid, (id, e))) =
          let (us, ss) = apply_statement-Kept step_of session au now id stmt t in
          rw e (
            rw us u,
            elim ss [
              | inl same ↦ rw same kept
              | inr (k, more) ↦
                  rw
                    (
                      more,
                      prior-append session.registration_id t.statements _,
                      ==_refl session.registration_id,
                    )
                    (All-append _ _ stmt kept (inr valid))
            ],
          )

  serve_other-Stands :
      (q : Request F64) (t : Lrs F64)
      → (q.session.registration_id == session.registration_id) ≡ false
      → Stands t
      → Stands (serve lt uuid_text step_of q t).1
  serve_other-Stands q t other (u, kept) =
      let (us, ss) = serve-Kept lt uuid_text step_of q t in
      (
        rw us u,
        elim ss [
          | inl same ↦ rw same kept
          | inr (k, more) ↦
              rw (more, prior-append session.registration_id t.statements _, other) kept
        ],
      )

  serve-Stands :
      (q : Request F64) (t : Lrs F64)
      → IsCall q
      → Stands t
      → Stands (serve lt uuid_text step_of q t).1
  serve-Stands q t (inl (s, w)) h = rw (s, w) (serve_own-Stands q.hint q.fresh q.stmt q.now t h)
  serve-Stands q t (inr other) h = serve_other-Stands q t other h

  pub serve_all-Stands :
      (qs : List (Request F64)) (t : Lrs F64)
      → All IsCall qs
      → Stands t
      → Stands (serve_all lt uuid_text step_of qs t)
  serve_all-Stands [] t calls h = h
  serve_all-Stands (q ∷ qs) t (c, calls) h = serve_all-Stands qs _ calls (serve-Stands q t c h)

  -- The call that grants.
  pub called-Earned :
      (m : MoveOn) (hint : Option ℕ) (fresh : ℕ) (stmt : Statement F64) (now : ℕ) (t : Lrs F64)
      → Stands t
      → parse_move_on au.move_on ≡ ok m
      → let done = called lt uuid_text step_of session site_url au hint fresh stmt now t in
        is_grant done.0 ≡ true
        → Earned lt
            (expectation uuid_text session site_url au)
            m
            (prior session.registration_id done.1.statements)
  called-Earned m hint fresh stmt now t (u, kept) parsed granted =
      by_call (called-Call lt uuid_text step_of session site_url au hint fresh stmt now t u)
    where
      by_call :
          Call lt uuid_text step_of session site_url au hint fresh stmt now t
            (called lt uuid_text step_of session site_url au hint fresh stmt now t)
          → Earned lt (expectation uuid_text session site_url au) m (
              prior session.registration_id
                (called lt uuid_text step_of session site_url au hint fresh stmt now
                  t).1.statements)
      by_call (inl (refused, e)) = absurd (ground (arith, refused, granted))
      by_call (inr (valid, (id, e))) =
          let g = rw e at granted in
          let (machine, applied, met, stored) =
            apply_statement-granted step_of session au now id stmt t m parsed g in
          rw
            (
              e,
              stored,
              prior-append session.registration_id t.statements _,
              ==_refl session.registration_id,
            )
            (met-Earned lt (expectation uuid_text session site_url au) m
              (prior session.registration_id t.statements ++ (stmt ∷ [])) machine.outcome
              (All-append _ _ stmt kept (inr valid))
              (apply-Within (prior session.registration_id t.statements) stmt machine applied)
              (ground (arith, met)))
