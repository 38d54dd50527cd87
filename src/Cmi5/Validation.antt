-- ===== src/Cmi5/Validation.antt =====
-- cmi5/src/validation.rs: which statements of a session are accepted, in which order they may come, and
-- whether what they report satisfies the unit. `MoveOn` is the one of cmi5/src/manifest.rs. What a
-- rejection quotes (the verb, the scores) is left out of `Violation`.
pub mod Credit
pub mod Sequence
mod Examples
use cooperative_systems_spac.Prelude.{
  ℕ, Bool, true, false, not, ◌&&◌, ◌||◌, Option, none, some, String, ◌==◌, string_eq, nat_eq,
  is_some_and, Result, ok, err, ◌>>=◌, ◌>>◌, guard, ok_or, if◌then◌else◌,
}
use cooperative_systems_spac.Cmi5.Manifest.{
  MoveOn, passed, completed, completed_and_passed, completed_or_passed, not_applicable,
}
use cooperative_systems_spac.Cmi5.Verbs
use cooperative_systems_spac.Cmi5.Categories
use cooperative_systems_spac.Cmi5.Statement.{
  Account, Agent, Activity, ContextActivities, Context, Score, XResult, Statement, lists_category,
  context_activities_of, verb_id, object_activity_id, registration, is_moveon,
}

pub record SessionExpectation (F64 : Type 0) : Type 0 where
  pub actor_home_page : String
  pub actor_account_name : String
  pub registration : ℕ
  pub activity_id : String
  pub mastery_score : Option F64

pub data Violation : Type 0 where
  not_an_account_actor : Violation
  actor_mismatch : Violation
  registration_mismatch : Violation
  activity_mismatch : Violation
  missing_cmi5_category : Violation
  unknown_verb : Violation
  missing_result : Violation
  not_passed_success : Violation
  not_failed_success : Violation
  not_completed : Violation
  below_mastery_score : Violation
  not_initialized : Violation
  already_initialized : Violation
  after_terminated : Violation
  both_passed_and_failed : Violation

unfoldable pub is_au_verb : String → Bool
is_au_verb verb =
    verb == Verbs.initialized
    || verb == Verbs.completed
    || verb == Verbs.passed
    || verb == Verbs.failed
    || verb == Verbs.terminated

-- `result.success != Some(b)`, the other way about
abbrev pub is_told : Bool → Option Bool → Bool
is_told true o = is_some_and (λ b. b) o
is_told false o = is_some_and (λ b. not b) o

module _ {F64 : Type 0} (lt : F64 → F64 → Bool) where
  unfoldable pub has_category : Statement F64 → String → Bool
  unfolding lists_category
  has_category stmt iri =
      is_some_and (λ (ca : ContextActivities). lists_category ca iri)
        (context_activities_of stmt.context)

  abbrev pub scaled_of : XResult F64 → Option F64
  scaled_of r = elim r.score [ none ↦ none | some s ↦ s.scaled ]

  -- The gate on a `passed`: no mastery score is asked for, or the scaled score is not below it.
  unfoldable pub reaches : Option F64 → Option F64 → Bool
  reaches none scaled = true
  reaches (some required) scaled = is_some_and (λ v. not (lt v required)) scaled

  -- The sixth check: what the verb says of the result.
  abbrev pub check_passed : SessionExpectation F64 → XResult F64 → Result Violation (Unit {0})
  check_passed expect result = do
    guard (is_told true result.success) Violation.not_passed_success
    guard (reaches expect.mastery_score (scaled_of result)) Violation.below_mastery_score

  abbrev pub check_failed : XResult F64 → Result Violation (Unit {0})
  check_failed result = guard (is_told false result.success) Violation.not_failed_success

  abbrev pub check_completed : XResult F64 → Result Violation (Unit {0})
  check_completed result = guard (is_told true result.completion) Violation.not_completed

  unfoldable pub check_result : Statement F64 → SessionExpectation F64 → Result Violation (Unit {0})
  unfolding reaches
  check_result stmt expect =
      if verb_id stmt == Verbs.passed
      then ok_or stmt.result Violation.missing_result >>= check_passed expect
      else if verb_id stmt == Verbs.failed
      then ok_or stmt.result Violation.missing_result >>= check_failed
      else if verb_id stmt == Verbs.completed
      then ok_or stmt.result Violation.missing_result >>= check_completed
      else ok tt

  unfoldable pub validate_cmi5_statement :
      Statement F64 → SessionExpectation F64 → Result Violation (Unit {0})
  unfolding has_category is_au_verb check_result
  validate_cmi5_statement stmt expect = do
    account ← ok_or stmt.actor.account Violation.not_an_account_actor
    guard (account.home_page == expect.actor_home_page && account.name == expect.actor_account_name)
        Violation.actor_mismatch
    guard (is_some_and (λ r. r == expect.registration) (registration stmt))
        Violation.registration_mismatch
    guard (object_activity_id stmt == expect.activity_id) Violation.activity_mismatch
    guard (has_category stmt Categories.cmi5) Violation.missing_cmi5_category
    guard (is_au_verb (verb_id stmt)) Violation.unknown_verb
    check_result stmt expect

pub record SessionOutcome : Type 0 where
  pub passed : Bool
  pub completed : Bool
  pub failed : Bool

pub record SessionState : Type 0 where
  pub initialized : Bool
  pub terminated : Bool
  pub outcome : SessionOutcome

-- `SessionState::new`
abbrev pub new : SessionState
new = record {
  initialized = false;
  terminated = false;
  outcome = record { passed = false; completed = false; failed = false };
}

-- The arms of `apply`'s `match`, the verb's first; an error leaves the state as it was.
module _ (st : SessionState) (counts : Bool) where
  abbrev on_initialized : Result Violation SessionState
  on_initialized =
      if st.initialized
      then err Violation.already_initialized
      else ok (record st { initialized = true })

  abbrev on_passed : Result Violation SessionState
  on_passed = do
    guard st.initialized Violation.not_initialized
    guard (not (counts && st.outcome.failed)) Violation.both_passed_and_failed
    ok (if counts then record st { outcome = record st.outcome { passed = true } } else st)

  abbrev on_failed : Result Violation SessionState
  on_failed = do
    guard st.initialized Violation.not_initialized
    guard (not (counts && st.outcome.passed)) Violation.both_passed_and_failed
    ok (if counts then record st { outcome = record st.outcome { failed = true } } else st)

  abbrev on_completed : Result Violation SessionState
  on_completed = do
    guard st.initialized Violation.not_initialized
    ok (if counts then record st { outcome = record st.outcome { completed = true } } else st)

  abbrev on_terminated : Result Violation SessionState
  on_terminated = do
    guard st.initialized Violation.not_initialized
    ok (record st { terminated = true })

-- The `match` of the verb.
unfoldable pub step : SessionState → String → Bool → Result Violation SessionState
step st verb counts =
    if verb == Verbs.initialized
    then on_initialized st counts
    else if verb == Verbs.passed
    then on_passed st counts
    else if verb == Verbs.failed
    then on_failed st counts
    else if verb == Verbs.completed
    then on_completed st counts
    else if verb == Verbs.terminated
    then on_terminated st counts
    else err Violation.unknown_verb

module _ {F64 : Type 0} where
  unfoldable pub apply : SessionState → Statement F64 → Result Violation SessionState
  unfolding step
  apply st stmt =
      if st.terminated
      then err Violation.after_terminated
      else step st (verb_id stmt) (is_moveon stmt)

unfoldable pub evaluate_move_on : MoveOn → SessionOutcome → Bool
evaluate_move_on passed outcome = outcome.passed
evaluate_move_on completed outcome = outcome.completed
evaluate_move_on completed_and_passed outcome = outcome.completed && outcome.passed
evaluate_move_on completed_or_passed outcome = outcome.completed || outcome.passed
evaluate_move_on not_applicable outcome = false
