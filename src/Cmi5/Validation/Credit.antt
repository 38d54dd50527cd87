-- ===== src/Cmi5/Validation/Credit.antt =====
-- cmi5/src/validation.rs: what must have been reported before a session satisfies its unit.
use cooperative_systems_spac.Prelude.{
  Bool, true, ◌&&◌, some, List, [], ◌∷◌, String, ◌==◌, string_eq, nat_eq, ==_iff, is_some_and, ◌≡◌,
  sym, ◌∙◌, ap, any, All, Any, ok, ◌⊎◌, inl, inr, ok_or, >>=-ok, ok_or-ok, guard-true, Bool-cases,
  Option-cases, arith,
}
use cooperative_systems_spac.Cmi5.Manifest.{
  MoveOn, passed, completed, completed_and_passed, completed_or_passed, not_applicable,
}
use cooperative_systems_spac.Cmi5.Statement.{
  Account, XResult, Statement, verb_id, object_activity_id, registration, is_moveon,
}
use cooperative_systems_spac.Cmi5.Verbs
use cooperative_systems_spac.Cmi5.Validation.{
  SessionExpectation, Violation, SessionOutcome, SessionState, new, is_told, scaled_of, reaches,
  check_passed, check_completed, check_result, validate_cmi5_statement, evaluate_move_on,
}
use cooperative_systems_spac.Cmi5.Validation.Sequence.{apply_all, counts_as, tally, apply_all-tally}

-- A statement that reports with the verb, among statements of which `Q` holds.
pub any-Any :
    {F64 : Type 0} (P Q : Statement F64 → Type 0) (verb : String)
    → ((s : Statement F64) → Q s → counts_as verb s ≡ true → P s)
    → (ss : List (Statement F64)) → All Q ss
    → any (counts_as verb) ss ≡ true
    → Any P ss
any-Any P Q verb back [] valid h = cc
any-Any P Q verb back (s ∷ ss) (v, valid) h = elim (Bool-cases (counts_as verb s)) [
  | inl t ↦ Any.head (back s v t)
  | inr f ↦ Any.tail (any-Any P Q verb back ss valid (rw f at h))
]

module _ {F64 : Type 0} (lt : F64 → F64 → Bool) (expect : SessionExpectation F64) where
  abbrev pub IsValid : Statement F64 → Type 0
  IsValid s = validate_cmi5_statement lt s expect ≡ ok tt

  -- The learner, the registration and the unit of the session.
  abbrev pub IsBound : Statement F64 → Type 0
  IsBound s =
      ((a : Account) × (s.actor.account ≡ some a)
        × (a.home_page ≡ expect.actor_home_page)
        × (a.name ≡ expect.actor_account_name))
      × (registration s ≡ some expect.registration)
      × (object_activity_id s ≡ expect.activity_id)

  -- A success whose scaled score is not below the mastery score.
  abbrev pub IsPass : Statement F64 → Type 0
  IsPass s =
      (r : XResult F64) × (s.result ≡ some r)
      × (is_told true r.success ≡ true)
      × (reaches lt expect.mastery_score (scaled_of lt r) ≡ true)

  abbrev pub IsCompletion : Statement F64 → Type 0
  IsCompletion s = (r : XResult F64) × (s.result ≡ some r) × (is_told true r.completion ≡ true)

  -- The tests of the first five checks.
  abbrev is_bound : Account → Statement F64 → Bool
  is_bound a s =
      (a.home_page == expect.actor_home_page && a.name == expect.actor_account_name)
      && is_some_and (λ r. r == expect.registration) (registration s)
      && object_activity_id s == expect.activity_id

  is_bound-IsBound :
      (a : Account) (s : Statement F64) → s.actor.account ≡ some a → is_bound a s ≡ true → IsBound s
  is_bound-IsBound a s e h =
      let home = (==_iff a.home_page expect.actor_home_page).0 (ground (arith, h)) in
      let name = (==_iff a.name expect.actor_account_name).0 (ground (arith, h)) in
      let act = (==_iff (object_activity_id s) expect.activity_id).0 (ground (arith, h)) in
      ((a, e, home, name), ground (arith, h), act)

  IsValid-parts : (s : Statement F64) → IsValid s → IsBound s × (check_result lt s expect ≡ ok tt)
  unfolding validate_cmi5_statement
  IsValid-parts s h = elim (Option-cases s.actor.account) [
    | inl n ↦ absurd (ground (arith, n, h))
    | inr (a, e) ↦
        let h' = rw e at h in (is_bound-IsBound a s e (ground (arith, h')), ground (arith, h'))
  ]

  -- A statement about the session's own unit, by its learner, that counts and reports what `P` says.
  abbrev pub IsReport : (Statement F64 → Type 0) → Statement F64 → Type 0
  IsReport P s = IsBound s × (is_moveon s ≡ true) × P s

  counts_as-parts :
      (verb : String) (s : Statement F64)
      → counts_as verb s ≡ true
      → (verb_id s ≡ verb) × (is_moveon s ≡ true)
  counts_as-parts verb s h = ((==_iff (verb_id s) verb).0 (ground (arith, h)), ground (arith, h))

  pub passed-IsReport :
      (s : Statement F64) → IsValid s → counts_as Verbs.passed s ≡ true → IsReport IsPass s
  unfolding check_result
  passed-IsReport s v h =
      let (bound, checked) = IsValid-parts s v in
      let (e, counts) = counts_as-parts Verbs.passed s h in
      let checked' = rw e at checked in
      let (r, hr, told) =
        >>=-ok (ok_or s.result Violation.missing_result) (check_passed lt expect) tt checked' in
      (bound, counts, (r, ok_or-ok s.result _ r hr, ground (arith, told), ground (arith, told)))

  pub completed-IsReport :
      (s : Statement F64) → IsValid s → counts_as Verbs.completed s ≡ true → IsReport IsCompletion s
  unfolding check_result
  completed-IsReport s v h =
      let (bound, checked) = IsValid-parts s v in
      let (e, counts) = counts_as-parts Verbs.completed s h in
      let checked' = rw e at checked in
      let (r, hr, told) =
        >>=-ok (ok_or s.result Violation.missing_result) (check_completed lt) tt checked' in
      (bound, counts, (r, ok_or-ok s.result _ r hr, guard-true _ _ _ told))

  -- What has to be among the statements before the criterion is met.
  abbrev pub Earned : MoveOn → List (Statement F64) → Type 0
  Earned passed ss = Any (IsReport IsPass) ss
  Earned completed ss = Any (IsReport IsCompletion) ss
  Earned completed_and_passed ss = Any (IsReport IsCompletion) ss × Any (IsReport IsPass) ss
  Earned completed_or_passed ss = Any (IsReport IsCompletion) ss ⊎ Any (IsReport IsPass) ss
  Earned not_applicable ss = ⊥

  -- The criterion, where each flag of the outcome comes from a report.
  pub Earned-of :
      (m : MoveOn) (ss : List (Statement F64)) (o : SessionOutcome)
      → (o.passed ≡ true → Any (IsReport IsPass) ss)
      → (o.completed ≡ true → Any (IsReport IsCompletion) ss)
      → evaluate_move_on m o ≡ true
      → Earned m ss
  unfolding evaluate_move_on
  Earned-of MoveOn.passed ss o pass complete e = pass e
  Earned-of MoveOn.completed ss o pass complete e = complete e
  Earned-of MoveOn.completed_and_passed ss o pass complete e =
      (complete (ground (arith, e)), pass (ground (arith, e)))
  Earned-of MoveOn.completed_or_passed ss o pass complete e = elim (Bool-cases o.completed) [
    | inl t ↦ inl (complete t)
    | inr f ↦ inr (pass (ground (arith, e, f)))
  ]
  Earned-of MoveOn.not_applicable ss o pass complete e = cc

  -- The criterion of a unit is met only by what the session has accepted: a `Passed` by a counting
  -- `passed` of the session's own learner, registration and unit, told a success and not below the
  -- mastery score, a `Completed` by such a `completed`, told a completion, and the other criteria by
  -- both or either of the two; `NotApplicable` by nothing.
  pub evaluate_move_on-Earned :
      (move_on : MoveOn) (ss : List (Statement F64)) (st : SessionState)
      → All IsValid ss
      → apply_all new ss ≡ ok st
      → evaluate_move_on move_on st.outcome ≡ true
      → Earned move_on ss
  evaluate_move_on-Earned move_on ss st valid h met =
      Earned-of move_on ss st.outcome pass complete met
    where
      total : st.outcome ≡ tally new.outcome ss
      total = let t = apply_all-tally new ss in rw h at t

      pass : st.outcome.passed ≡ true → Any (IsReport IsPass) ss
      pass e =
          any-Any (IsReport IsPass) IsValid Verbs.passed passed-IsReport ss valid
            (sym (ap (λ (o : SessionOutcome). o.passed) total) ∙ e)

      complete : st.outcome.completed ≡ true → Any (IsReport IsCompletion) ss
      complete e =
          any-Any (IsReport IsCompletion) IsValid Verbs.completed completed-IsReport ss valid
            (sym (ap (λ (o : SessionOutcome). o.completed) total) ∙ e)
