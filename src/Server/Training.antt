-- ===== src/Server/Training.antt =====
-- server/src/cmi5.rs: launches of training units, the statements that their content reports, and the
-- completions of training steps that these earn. JSON, the files of a package and the launch URL are
-- left out, and so is the race of two requests; `Utc::now()`, new ids, new tokens and hashes are
-- arguments. `completions` keeps what is passed to `record_step_completion`, the learner and the step.
mod Launched
mod Launches
mod Calls
mod Credit
mod Earned
mod Examples
mod Grants
mod Statements
mod SingleUse
use cooperative_systems_spac.Prelude.{ℕ, Bool, Option, List, String}
use cooperative_systems_spac.Cmi5.Manifest.{ManifestError}
use cooperative_systems_spac.Cmi5.Statement.{Statement}
use cooperative_systems_spac.Cmi5.Validation.{Violation}

pub data Cmi5Error : Type 0 where
  au_not_found : Cmi5Error
  step_not_found : Cmi5Error
  step_requires_assessment : Cmi5Error
  move_on_not_applicable : Cmi5Error
  course_not_found : Cmi5Error
  fetch_token_invalid : Cmi5Error
  manifest : ManifestError → Cmi5Error
  diesel : Cmi5Error
  rejected : Violation → Cmi5Error

pub record Cmi5AssignableUnit (F64 : Type 0) : Type 0 where
  pub id : ℕ
  pub course_id : ℕ
  pub au_iri : String
  pub move_on : String
  pub mastery_score : Option F64
  pub training_step_id : Option ℕ

pub record Cmi5Course : Type 0 where
  pub id : ℕ
  pub deleted_at : Option ℕ

pub record Cmi5Registration : Type 0 where
  pub id : ℕ
  pub user_id : ℕ
  pub au_id : ℕ
  pub launch_mode : String
  pub satisfied_at : Option ℕ
  pub passed_at : Option ℕ
  pub completed_at : Option ℕ

pub record Cmi5LaunchToken : Type 0 where
  pub registration_id : ℕ
  pub fetch_token_hash : String
  pub session_token_hash : Option String
  pub fetch_consumed_at : Option ℕ
  pub expires_at : ℕ
  pub session_expires_at : ℕ

pub record Cmi5Statement (F64 : Type 0) : Type 0 where
  pub registration_id : ℕ
  pub statement_id : ℕ
  pub statement : Statement F64

pub record TrainingStep : Type 0 where
  pub tool_id : ℕ
  pub requires_assessment : Bool

-- The tables, the statements in the order of `stored`.
pub record Lrs (F64 : Type 0) : Type 0 where
  pub courses : List Cmi5Course
  pub units : List (Cmi5AssignableUnit F64)
  pub registrations : List Cmi5Registration
  pub tokens : List Cmi5LaunchToken
  pub statements : List (Cmi5Statement F64)
  pub completions : List (ℕ × ℕ)

pub record Cmi5SessionContext : Type 0 where
  pub registration_id : ℕ
  pub user_id : ℕ
  pub au_id : ℕ
  pub activity_id : String
  pub launch_mode : String

pub record GrantInfo : Type 0 where
  pub user_id : ℕ
  pub au_id : ℕ
  pub registration_id : ℕ
  pub training_step_id : ℕ
  pub tool_id : ℕ
