-- ===== src/Server/Training/Launched.antt =====
-- server/src/cmi5.rs: from a launch to the step that it earns.
use cooperative_systems_spac.Prelude.{
  ℕ, Bool, true, ◌&&◌, List, [], String, ◌==◌, string_eq, nat_eq, ==_refl, Option, some, Result, ok,
  ◌≡◌, refl, find, All, Option-cases, Result-cases, inl, inr,
}
use cooperative_systems_spac.Cmi5.Manifest.{MoveOn, parse_move_on}
use cooperative_systems_spac.Cmi5.Validation.Credit.{Earned}
use cooperative_systems_spac.Server.Training.{
  Cmi5Error, Cmi5AssignableUnit, Cmi5Course, TrainingStep, Lrs, Cmi5SessionContext,
}
use cooperative_systems_spac.Server.Training.Launches.{
  is_none, LaunchIds, insert_launch, create_launch,
}
use cooperative_systems_spac.Server.Training.Statements.{expectation, prior}
use cooperative_systems_spac.Server.Training.Grants.{is_grant, Request, serve, serve_all}
use cooperative_systems_spac.Server.Training.Calls.{unit_row, prior-append}
use cooperative_systems_spac.Server.Training.Credit.{
  Stands, IsCall, serve_all-Stands, called-Earned,
}

module _ {F64 : Type 0} (lt : F64 → F64 → Bool) (hash_token uuid_text : ℕ → String)
    (fetch_ttl session_ttl : ℕ) (step_of : ℕ → Option TrainingStep) (ids : LaunchIds) (user_id : ℕ)
    (site_url : String) (au : Cmi5AssignableUnit F64) where
  -- The session of the launch, as `resolve_session` finds it.
  abbrev pub session_of : Cmi5SessionContext
  session_of = record {
    registration_id = ids.registration_id;
    user_id = user_id;
    au_id = au.id;
    activity_id = au.au_iri;
    launch_mode = "Normal";
  }

  abbrev pub launch : ℕ → Lrs F64 → Result Cmi5Error ℕ × Lrs F64
  launch now t =
      create_launch hash_token uuid_text fetch_ttl session_ttl ids au.id user_id site_url now t

  insert_launch-Stands :
      (now : ℕ) (t : Lrs F64)
      → unit_row session_of t.units ≡ some au
      → prior ids.registration_id t.statements ≡ []
      → Stands lt uuid_text step_of session_of site_url au
          (insert_launch hash_token uuid_text fetch_ttl session_ttl ids user_id site_url au now t)
  unfolding insert_launch
  insert_launch-Stands now t u fresh = (
    u,
    rw (prior-append ids.registration_id t.statements _, ==_refl ids.registration_id, fresh)
        (inl refl, tt),
  )

  -- A launch that succeeds leaves the session with the LMS's own statement alone.
  launch-Stands :
      (now : ℕ) (t : Lrs F64)
      → unit_row session_of t.units ≡ some au
      → prior ids.registration_id t.statements ≡ []
      → (launch now t).0 ≡ ok ids.registration_id
      → Stands lt uuid_text step_of session_of site_url au (launch now t).1
  unfolding create_launch
  launch-Stands now t u fresh launched =
      elim (Option-cases
        (find (λ (c : Cmi5Course). c.id == au.course_id && is_none c.deleted_at) t.courses)) [
          | inl e ↦ absurd (let g = rw (u, e, create_launch) at launched in cc)
          | inr (course, e) ↦ elim (Result-cases (parse_move_on au.move_on)) [
            | inl (x, p) ↦ absurd (let g = rw (u, e, p, create_launch) at launched in cc)
            | inr (m, p) ↦ rw (u, e, p, create_launch) (insert_launch-Stands now t u fresh)
          ]
        ]

  -- After a launch under a new registration, whatever is reported in its session and in others: a call
  -- of the session that grants the unit's step leaves among the statements of the session what the
  -- unit's criterion asks for, each about this unit, by this learner and under this registration, told
  -- a success or a completion, and a `passed` not below the mastery score.
  pub serve-Earned :
      (m : MoveOn) (now : ℕ) (t : Lrs F64) (qs : List (Request F64)) (q : Request F64)
      → unit_row session_of t.units ≡ some au
      → parse_move_on au.move_on ≡ ok m
      → prior ids.registration_id t.statements ≡ []
      → (launch now t).0 ≡ ok ids.registration_id
      → All (IsCall lt uuid_text step_of session_of site_url au) qs
      → q.session ≡ session_of
      → q.site_url ≡ site_url
      → let done =
          serve lt uuid_text step_of q (serve_all lt uuid_text step_of qs (launch now t).1) in
        is_grant done.0 ≡ true
        → Earned lt
            (expectation uuid_text session_of site_url au)
            m
            (prior ids.registration_id done.1.statements)
  serve-Earned m now t qs q u parsed fresh launched calls s w granted =
      let before = serve_all lt uuid_text step_of qs (launch now t).1 in
      let stands =
        serve_all-Stands lt uuid_text step_of session_of site_url au qs (launch now t).1 calls
          (launch-Stands now t u fresh launched) in
      let g = rw (s, w) at granted in
      rw (s, w)
        (called-Earned lt uuid_text step_of session_of site_url au m q.hint q.fresh q.stmt q.now
          before stands parsed g)
