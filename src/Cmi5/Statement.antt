-- ===== src/Cmi5/Statement.antt =====
-- cmi5/src/statement.rs: the xAPI statements that a course sends. A 64-bit float is of the type `F64`, a
-- parameter, and a Uuid is its number. The labels, definitions and extensions, which nothing inspects,
-- and the timestamp are left out.
use cooperative_systems_spac.Prelude.{
  ℕ, Bool, Option, none, some, List, String, any, is_some_and, ◌==◌, string_eq,
}
use cooperative_systems_spac.Cmi5.Categories

pub record Account : Type 0 where
  pub home_page : String
  pub name : String

pub record Agent : Type 0 where
  pub object_type : Option String
  pub name : Option String
  pub mbox : Option String
  pub account : Option Account

pub record Verb : Type 0 where
  pub id : String

pub record Activity : Type 0 where
  pub object_type : Option String
  pub id : String

pub data StatementObject : Type 0 where
  activity : Activity → StatementObject

pub record Score (F64 : Type 0) : Type 0 where
  pub scaled : Option F64
  pub raw : Option F64
  pub min : Option F64
  pub max : Option F64

pub record XResult (F64 : Type 0) : Type 0 where
  pub score : Option (Score F64)
  pub success : Option Bool
  pub completion : Option Bool
  pub duration : Option String

pub record ContextActivities : Type 0 where
  pub category : Option (List Activity)
  pub parent : Option (List Activity)
  pub grouping : Option (List Activity)
  pub other : Option (List Activity)

pub record Context : Type 0 where
  pub registration : Option ℕ
  pub context_activities : Option ContextActivities

pub record Statement (F64 : Type 0) : Type 0 where
  pub id : Option ℕ
  pub actor : Agent
  pub verb : Verb
  pub object : StatementObject
  pub result : Option (XResult F64)
  pub context : Option Context

abbrev pub activity_id : StatementObject → String
activity_id (StatementObject.activity a) = a.id

unfoldable pub lists_category : ContextActivities → String → Bool
lists_category activities iri =
    is_some_and (λ (cats : List Activity). any (λ (a : Activity). a.id == iri) cats)
      activities.category

abbrev pub context_activities_of : Option Context → Option ContextActivities
context_activities_of none = none
context_activities_of (some c) = c.context_activities

module _ {F64 : Type 0} where
  abbrev pub verb_id : Statement F64 → String
  verb_id stmt = stmt.verb.id

  abbrev pub object_activity_id : Statement F64 → String
  object_activity_id stmt = activity_id stmt.object

  unfoldable pub registration : Statement F64 → Option ℕ
  registration stmt = elim stmt.context [ none ↦ none | some c ↦ c.registration ]

  unfoldable pub is_moveon : Statement F64 → Bool
  unfolding lists_category
  is_moveon stmt =
      is_some_and (λ (ca : ContextActivities). lists_category ca Categories.moveon)
        (context_activities_of stmt.context)
