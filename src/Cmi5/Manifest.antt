-- ===== src/Cmi5/Manifest.antt =====
-- cmi5/src/manifest.rs: the tree of a course, and what can go wrong in reading it. A mastery score is of
-- the type `F64`, a parameter.
mod Examples
mod Events
mod Parse
mod ParseUnits
mod ParseBlocks
mod Write
mod Delivery
mod RoundTrip
use cooperative_systems_spac.Prelude.{
  Bool, true, false, Option, none, some, List, [], ◌∷◌, ◌++◌, String, ◌==◌, string_eq, Result, ok,
  err, if◌then◌else◌,
}

pub data ManifestError : Type 0 where
  xml : String → ManifestError
  missing_element : String → ManifestError
  missing_attribute : String → String → ManifestError
  bad_move_on : String → ManifestError
  bad_launch_method : String → ManifestError
  bad_mastery_score : String → ManifestError
  unexpected_eof : String → ManifestError

pub data MoveOn : Type 0 where
  passed : MoveOn
  completed : MoveOn
  completed_and_passed : MoveOn
  completed_or_passed : MoveOn
  not_applicable : MoveOn

abbrev pub move_on_text : MoveOn → String
move_on_text MoveOn.passed = "Passed"
move_on_text MoveOn.completed = "Completed"
move_on_text MoveOn.completed_and_passed = "CompletedAndPassed"
move_on_text MoveOn.completed_or_passed = "CompletedOrPassed"
move_on_text MoveOn.not_applicable = "NotApplicable"

abbrev pub parse_move_on : String → Result ManifestError MoveOn
parse_move_on s =
    if s == "Passed"
    then ok MoveOn.passed
    else if s == "Completed"
    then ok MoveOn.completed
    else if s == "CompletedAndPassed"
    then ok MoveOn.completed_and_passed
    else if s == "CompletedOrPassed"
    then ok MoveOn.completed_or_passed
    else if s == "NotApplicable"
    then ok MoveOn.not_applicable
    else err (ManifestError.bad_move_on s)

pub data LaunchMethod : Type 0 where
  any_window : LaunchMethod
  own_window : LaunchMethod

abbrev pub launch_method_text : LaunchMethod → String
launch_method_text LaunchMethod.any_window = "AnyWindow"
launch_method_text LaunchMethod.own_window = "OwnWindow"

abbrev pub parse_launch_method : String → Result ManifestError LaunchMethod
parse_launch_method s =
    if s == "AnyWindow"
    then ok LaunchMethod.any_window
    else if s == "OwnWindow"
    then ok LaunchMethod.own_window
    else err (ManifestError.bad_launch_method s)

pub record LangString : Type 0 where
  pub lang : String
  pub value : String

pub record Course : Type 0 where
  pub id : String
  pub title : List LangString
  pub description : List LangString

pub record Objective : Type 0 where
  pub id : String
  pub title : List LangString
  pub description : List LangString

pub record AssignableUnit (F64 : Type 0) : Type 0 where
  pub id : String
  pub move_on : MoveOn
  pub mastery_score : Option F64
  pub launch_method : Option LaunchMethod
  pub title : List LangString
  pub description : List LangString
  pub objective_ids : List String
  pub url : String
  pub launch_parameters : Option String
  pub entitlement_key : Option String

-- The fields of a `Block` other than its children.
pub record BlockHead : Type 0 where
  pub id : String
  pub title : List LangString
  pub description : List LangString
  pub objective_ids : List String

-- A block holds a list of nodes: `Nodes` is `Vec<Node>`.
mutual
  pub data Node (F64 : Type 0) : Type 0 where
    block : BlockHead → Nodes F64 → Node F64
    au : AssignableUnit F64 → Node F64

  pub data Nodes (F64 : Type 0) : Type 0 where
    nil : Nodes F64
    cons : Node F64 → Nodes F64 → Nodes F64

pub record CourseStructure (F64 : Type 0) : Type 0 where
  pub course : Course
  pub objectives : List Objective
  pub nodes : Nodes F64

module _ {F64 : Type 0} where
  -- The walk adds to the end of `out`.
  unfoldable mutual
    pub collect_aus : Nodes F64 → List (AssignableUnit F64) → List (AssignableUnit F64)
    collect_aus Nodes.nil out = out
    collect_aus (Nodes.cons node nodes) out = collect_aus nodes (collect_au node out)

    pub collect_au : Node F64 → List (AssignableUnit F64) → List (AssignableUnit F64)
    collect_au (Node.au unit) out = out ++ (unit ∷ [])
    collect_au (Node.block head children) out = collect_aus children out

  unfoldable pub assignable_units : CourseStructure F64 → List (AssignableUnit F64)
  unfolding collect_aus
  assignable_units cs = collect_aus cs.nodes []
