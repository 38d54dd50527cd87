-- ===== src/Server/Access.antt =====
-- server/src/access_engine.rs: the one access decision; `DoorService::evaluate` of
-- server/src/doors.rs and `user_is_authorized_for_tool` of server/src/database.rs, which call it.
pub mod Precedence
pub mod Snapshot
pub mod Fixtures
mod Examples
use cooperative_systems_spac.Prelude.{
  ℕ, ◌≡◌, Bool, true, false, ◌&&◌, ◌||◌, not, Option, none, some, List, [], ◌∷◌, String, ℤ, pos,
  leb_ℤ, if◌then◌else◌, ◌==◌, nat_eq, string_eq, is_some_and,
}
use mathlib.Core.List.{foldl}
use cooperative_systems_spac.Server.Rbac.{RoleGraph, level_of_name, from_rows}
use cooperative_systems_spac.Server.Rules.{
  DoorRuleKind, role, user, card, open_access, DoorRuleEffect, parse_kind, parse_effect, AccessRule,
  UuidText, Clockwork, schedule_state_at, rule_fires,
}

-- What a principal is trying to do.
pub data Action : Type 0 where
  use_tool unlock unlock_remote : Action

abbrev pub needs_identity : Action → Bool
needs_identity use_tool = true
needs_identity unlock = true
needs_identity unlock_remote = true

pub data DenyReason : Type 0 where
  locked_out : DenyReason
  unavailable : String → DenyReason
  not_active : DenyReason
  rule : DenyReason
  no_match : DenyReason
  training : DenyReason
  billing : DenyReason

pub data Decision : Type 0 where
  allow : Decision
  deny : DenyReason → Decision

unfoldable pub is_allow : Decision → Bool
is_allow allow = true
is_allow (deny _) = false

-- `card_digests` is a set, so a test.
pub record Principal : Type 0 where
  pub user_id : Option ℕ
  pub level : ℤ
  pub card_digests : String → Bool
  pub is_active : Bool

pub data DefaultEffect : Type 0 where
  open_to_all restricted : DefaultEffect

pub record ResourcePolicy : Type 0 where
  pub locked_out : Bool
  pub unavailable : Option String
  pub default_effect : DefaultEffect
  pub schedule_id : Option ℕ
  pub training_ok : Option Bool
  pub metered_ok : Option Bool

-- `x == Some(false)`
abbrev pub is_false : Option Bool → Bool
is_false none = false
is_false (some b) = not b

module _ (uuid : UuidText) (graph : RoleGraph) (principal : Principal) where
  -- Whether a rule of a kind names the principal.
  unfoldable pub kind_matches : DoorRuleKind → String → Bool
  kind_matches card value = principal.card_digests value
  kind_matches user value = is_some_and (λ u. uuid.to_string u == value) principal.user_id
  kind_matches role value = elim (level_of_name graph value) [
    | none ↦ false
    | some required ↦ leb_ℤ required principal.level
  ]
  kind_matches open_access value = false

  module _ {ℓ} {Json : Type ℓ} (clock : Clockwork Json) where
    -- One round of the loop over the rules: the effect that it records, if any.
    unfoldable pub rule_matches : AccessRule → Option DoorRuleEffect
    rule_matches r = elim (parse_effect r.effect) [
      | none ↦ none
      | some effect ↦
          if rule_fires effect (schedule_state_at clock r.schedule_id)
          then elim (parse_kind r.kind) [
            | none ↦ none
            | some kind ↦ if kind_matches kind r.value then some effect else none
          ]
          else none
    ]

    -- `(matched_allow, matched_deny)`
    unfoldable pub note_match : Bool × Bool → AccessRule → Bool × Bool
    note_match (matched_allow, matched_deny) r = elim (rule_matches r) [
      | none ↦ (matched_allow, matched_deny)
      | some DoorRuleEffect.allow ↦ (true, matched_deny)
      | some DoorRuleEffect.deny ↦ (matched_allow, true)
    ]

    unfoldable pub match_rules : List AccessRule → Bool × Bool
    unfolding note_match
    match_rules rules = foldl note_match (false, false) rules

    unfoldable pub default_open : ResourcePolicy → Bool
    default_open policy = elim policy.default_effect [
      | open_to_all ↦ rule_fires DoorRuleEffect.allow (schedule_state_at clock policy.schedule_id)
      | restricted ↦ false
    ]

    -- Steps 5 to 9, on what the rules matched.
    grant : ResourcePolicy → Bool × Bool → Decision
    grant policy (matched_allow, matched_deny) =
        if matched_deny
        then deny rule
        else if not matched_allow && not (default_open policy)
        then deny no_match
        else if is_false policy.training_ok
        then deny training
        else if is_false policy.metered_ok
        then deny billing
        else allow

    unfoldable pub may : ResourcePolicy → List AccessRule → Action → Decision
    unfolding grant default_open
    may policy rules action =
        if policy.locked_out then deny locked_out else elim policy.unavailable [
          | some reason ↦ deny (unavailable reason)
          | none ↦
              if needs_identity action && not principal.is_active
              then deny not_active
              else grant policy (match_rules rules)
        ]

-- The answer of the QR path: an empty text stands for nothing, a refusal carries its message.
pub data AccessDecision : Type 0 where
  allow : AccessDecision
  deny : String → AccessDecision

-- The policy that a door is judged by.
abbrev pub door_policy : Bool → ResourcePolicy
door_policy enabled = record {
  locked_out = false;
  unavailable = if enabled then none else some "Door is disabled";
  default_effect = restricted;
  schedule_id = none;
  training_ok = none;
  metered_ok = none;
}

pub to_message : Decision → AccessDecision
to_message allow = allow
to_message (deny (unavailable m)) = deny m
to_message (deny not_active) = deny "Account inactive"
to_message (deny rule) = deny "Denied by access rule"
to_message (deny no_match) = deny "No matching access rule"
to_message (deny locked_out) = deny "Locked out"
to_message (deny training) = deny "Denied"
to_message (deny billing) = deny "Denied"

module _ {ℓ} {Json : Type ℓ} (uuid : UuidText) (graph : RoleGraph) (clock : Clockwork Json) where
  -- `evaluate`, on the rows that it loads: the door's switch and rules, and the user materialized.
  unfoldable pub evaluate : Bool → List AccessRule → Principal → Action → AccessDecision
  unfolding to_message
  evaluate enabled rules principal action =
      to_message (may uuid graph principal clock (door_policy enabled) rules action)

-- What the database answers about a user and a tool.
pub record ToolFacts : Type 0 where
  pub locked_out : Bool
  pub has_steps : Bool
  pub requires_training : Bool
  pub has_active_waiver : Bool
  pub completed_all_steps : Bool

training_satisfied : ToolFacts → Bool
training_satisfied t =
    if not t.has_steps && not t.requires_training
    then true
    else if t.has_active_waiver
    then true
    else if t.has_steps
    then t.completed_all_steps
    else false

abbrev tool_policy : ToolFacts → ResourcePolicy
unfolding training_satisfied
tool_policy t = record {
  locked_out = t.locked_out;
  unavailable = none;
  default_effect = open_to_all;
  schedule_id = none;
  training_ok = some (training_satisfied t);
  metered_ok = none;
}

abbrev tool_principal : ℕ → Principal
tool_principal user_id = record {
  user_id = some user_id;
  level = pos 0;
  card_digests = λ _. false;
  is_active = true;
}

module _ {ℓ} {Json : Type ℓ} (uuid : UuidText) (clock : Clockwork Json) where
  unfoldable pub user_is_authorized_for_tool : ℕ → ToolFacts → Bool
  unfolding training_satisfied tool_policy
  user_is_authorized_for_tool user_id t =
      is_allow
        (may uuid (from_rows [] [] []) (tool_principal user_id) clock (tool_policy t) [] use_tool)
