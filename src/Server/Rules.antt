-- ===== src/Server/Rules.antt =====
-- server/src/models/doors.rs and the rule half of server/src/doors.rs: access rules, their
-- schedule gate, the Open Access hold, and their expansion into the card lists a device is sent.
-- What serde_json and uuid do is a parameter: `parse_intervals` reads a schedule's JSON, and
-- `UuidText` prints and parses identifiers. A set of cards is a test.
pub mod Expansion
pub mod OpenHold
mod Examples
use cooperative_systems_spac.Prelude.{
  ℕ, ◌+◌, ◌≡◌, Bool, true, false, ◌&&◌, ◌||◌, not, Option, none, some, List, [], ◌∷◌, String, ℤ,
  pos, leb_ℤ, leb, if◌then◌else◌, ◌==◌, nat_eq, string_eq, find, contains, Map, Assoc, lookup,
  unwrap_or,
}
use mathlib.Core.List.{foldl}
use cooperative_systems_spac.Server.Schedules.{ScheduleInterval, Tz, matches_at, active_until}
use cooperative_systems_spac.Server.Rbac.{RoleGraph, level_of_name}

pub data DoorRuleKind : Type 0 where
  role user card open_access : DoorRuleKind

pub data DoorRuleEffect : Type 0 where
  allow deny : DoorRuleEffect

abbrev pub kind_as_str : DoorRuleKind → String
kind_as_str role = "role"
kind_as_str user = "user"
kind_as_str card = "card"
kind_as_str open_access = "open_access"

unfoldable pub parse_kind : String → Option DoorRuleKind
parse_kind s =
    if s == "role"
    then some role
    else if s == "user"
    then some user
    else if s == "card"
    then some card
    else if s == "open_access"
    then some open_access
    else none

abbrev pub effect_as_str : DoorRuleEffect → String
effect_as_str allow = "allow"
effect_as_str deny = "deny"

unfoldable pub parse_effect : String → Option DoorRuleEffect
parse_effect s = if s == "allow" then some allow else if s == "deny" then some deny else none

-- A rule on a resource; the columns that no decision reads (its id, its resource, when it was made)
-- are left out.
pub record AccessRule : Type 0 where
  pub kind : String
  pub value : String
  pub effect : String
  pub schedule_id : Option ℕ

-- A row of the schedules table: its id and its JSON column, which are what a decision reads.
pub record Schedule {ℓ} (Json : Type ℓ) : Type ℓ where
  pub id : ℕ
  pub intervals : Json

-- `Uuid::to_string` and `Uuid::parse_str`.
pub record UuidText : Type 0 where
  pub to_string : ℕ → String
  pub parse_str : String → Option ℕ

pub data ScheduleState : Type 0 where
  active inactive unresolvable : ScheduleState

-- Fail-closed: an unresolvable schedule keeps a deny and drops an allow.
unfoldable pub rule_fires : DoorRuleEffect → ScheduleState → Bool
rule_fires effect active = true
rule_fires effect inactive = false
rule_fires allow unresolvable = false
rule_fires deny unresolvable = true

-- What a snapshot of the schedules is read with: the rows, the site's zone and the instant.
pub record Clockwork {ℓ} (Json : Type ℓ) : Type ℓ where
  pub parse_intervals : Json → Option (List ScheduleInterval)
  pub schedules : List (Schedule Json)
  pub tz : Tz
  pub now : ℕ

module _ {ℓ} {Json : Type ℓ} (clock : Clockwork Json) where
  open clock use {parse_intervals, schedules, tz, now}

  -- The intervals of a schedule: `none` where the row is missing or its JSON does not parse.
  unfoldable pub intervals_of : ℕ → Option (List ScheduleInterval)
  intervals_of sid = elim (find (λ (s : Schedule Json). s.id == sid) schedules) [
    | none ↦ none
    | some sched ↦ parse_intervals sched.intervals
  ]

  -- The rest of `schedule_state_at`, on the intervals it read.
  unfoldable pub window_state : Option (List ScheduleInterval) → ScheduleState
  window_state none = unresolvable
  window_state (some intervals) = if matches_at intervals tz now then active else inactive

  unfoldable pub schedule_state_at : Option ℕ → ScheduleState
  schedule_state_at none = active
  schedule_state_at (some sid) = window_state (intervals_of sid)

  -- One round of the loop in `open_access_hold_until_at`: the end of the rule's window, if the rule
  -- is an `allow` of kind `open_access` with a readable schedule that is open now.
  unfoldable pub rule_hold : AccessRule → Option ℕ
  rule_hold rule = elim (parse_kind rule.kind) [
    | some open_access ↦ elim (parse_effect rule.effect) [
      | some allow ↦ elim rule.schedule_id [
        | none ↦ none
        | some sid ↦ elim (intervals_of sid) [
          | none ↦ none
          | some intervals ↦ active_until intervals tz now
        ]
      ]
      | _ ↦ none
    ]
    | _ ↦ none
  ]

  -- `latest.map_or(end, |cur| cur.max(end))`
  later_hold : Option ℕ → AccessRule → Option ℕ
  later_hold latest rule = elim (rule_hold rule) [
    | none ↦ latest
    | some end ↦ some (elim latest [ none ↦ end | some cur ↦ if leb cur end then end else cur ])
  ]

  unfoldable pub open_access_hold_until_at : List AccessRule → Option ℕ
  unfolding later_hold
  open_access_hold_until_at rules = foldl later_hold none rules

-- The two sets that the expansion fills.
pub record Buckets : Type 0 where
  pub allow_cards : String → Bool
  pub deny_cards : String → Bool

abbrev pub bucket : DoorRuleEffect → Buckets → String → Bool
bucket allow b = b.allow_cards
bucket deny b = b.deny_cards

abbrev pub add_cards : DoorRuleEffect → (String → Bool) → Buckets → Buckets
add_cards allow cards b = record b { allow_cards = λ c. b.allow_cards c || cards c }
add_cards deny cards b = record b { deny_cards = λ c. b.deny_cards c || cards c }

-- What the roster supplies: each user's card digests, and each user's effective level.
pub record Roster : Type 0 where
  pub cards_by_user : Assoc ℕ (List String)
  pub user_levels : Map ℕ ℤ

-- Some user at the required level or above holds the card.
unfoldable pub holds_at_level : Roster → ℤ → Assoc ℕ (List String) → String → Bool
holds_at_level roster required [] c = false
holds_at_level roster required ((uid, cards) ∷ m) c =
    (leb_ℤ required (unwrap_or (pos 0) (roster.user_levels uid)) && contains cards c)
    || holds_at_level roster required m c

module _ (uuid : UuidText) (graph : RoleGraph) (roster : Roster) where
  -- The cards that a rule of a kind puts into its bucket.
  unfoldable pub cards_of : DoorRuleKind → String → String → Bool
  unfolding holds_at_level
  cards_of open_access value c = false
  cards_of card value c = value == c
  cards_of user value c = elim (uuid.parse_str value) [
    | none ↦ false
    | some uid ↦ elim (lookup uid roster.cards_by_user) [
      | none ↦ false
      | some cards ↦ contains cards c
    ]
  ]
  cards_of role value c = elim (level_of_name graph value) [
    | none ↦ false
    | some required ↦ holds_at_level roster required roster.cards_by_user c
  ]

  module _ {ℓ} {Json : Type ℓ} (clock : Clockwork Json) where
    -- One round of the loop: effect, then the schedule gate, then the kind.
    unfoldable pub expand_rule : Buckets → AccessRule → Buckets
    expand_rule b rule = elim (parse_effect rule.effect) [
      | none ↦ b
      | some effect ↦
          if rule_fires effect (schedule_state_at clock rule.schedule_id)
          then elim (parse_kind rule.kind) [
            | none ↦ b
            | some kind ↦ add_cards effect (cards_of kind rule.value) b
          ]
          else b
    ]

    unfoldable pub expand_rules_at : List AccessRule → Buckets
    unfolding expand_rule
    expand_rules_at rules =
        foldl expand_rule (record { allow_cards = λ _. false; deny_cards = λ _. false }) rules
