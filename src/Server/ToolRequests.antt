-- ===== src/Server/ToolRequests.antt =====
-- server/src/api/toolguard.rs: the state of the handlers of a tool, and the start of a tool. A card comes
-- with its owner, as `resolve_card` finds it, and a tool as the handler has loaded it, which another
-- request may have changed since. Failures of the database and the audit trail of what succeeds are
-- left out; `now` and a new session's key are arguments.
mod Stopping
mod Activation
mod Examples
mod Refusals
mod Answers
mod Reports
use cooperative_systems_spac.Prelude.{
  ℕ, Bool, true, false, not, ◌&&◌, Option, none, some, List, [], ◌∷◌, String, ◌==◌, string_eq,
  nat_eq, find, if◌then◌else◌,
}
use cooperative_systems_spac.Server.Rules.{UuidText, Clockwork}
use cooperative_systems_spac.Server.Access.{ToolFacts, user_is_authorized_for_tool}
use cooperative_systems_spac.Server.Billing.{
  Rounding, BillingConfig, Tool, ToolRateTier, ToolUsageSession, Usage, DeniedReason,
  ActivationOutcome, SessionStatus, is_metered, open_tool_session_for_tool, open_session,
  record_usage, settle_open_session_for_tool,
}
use cooperative_systems_spac.Server.Sweep.{
  ToolStatus, idle, in_use, maintenance, broken, repair, retired, is_in_use,
}

-- The columns of a member that the handlers read.
pub record Member : Type 0 where
  pub id : ℕ
  pub is_active : Bool

pub data CardResolution : Type 0 where
  active : Member → CardResolution
  revoked : Member → CardResolution
  unknown : CardResolution

-- A tool's row: what billing reads, and the columns that the handlers read.
pub record ToolRow : Type 0 where
  pub tool : Tool
  pub status : ToolStatus
  pub requires_training : Bool

pub record ToolEvent : Type 0 where
  pub tool_id : ℕ
  pub event_type : String
  pub old_status : Option ToolStatus
  pub new_status : Option ToolStatus
  pub user_id : Option ℕ

pub data Denial : Type 0 where
  card_revoked : Denial
  unknown_card : Denial
  user_inactive : Denial
  tool_not_found : Denial
  already_in_use : Denial
  under_maintenance : Denial
  tool_broken : Denial
  in_repair : Denial
  tool_retired : Denial
  training_required : Denial
  unpaid : DeniedReason → Denial
  nobody_signed_on : Denial
  foreign_card : Denial
  no_open_session : Denial

-- What the handlers write; the newest event stands first.
pub record Shop : Type 0 where
  pub status : ℕ → ToolStatus
  pub usage : Usage
  pub events : List ToolEvent
  pub denials : List (Option ℕ × Denial)

pub data Reply : Type 0 where
  authorized : Reply
  denied : Denial → Reply
  done : Reply
  error : String → Reply

abbrev pub is_authorized : Reply → Bool
is_authorized Reply.authorized = true
is_authorized _ = false

-- `log_tool_access_denied`
abbrev pub note : Option ℕ → Denial → Shop → Shop
note who why shop = record shop { denials = (who, why) ∷ shop.denials }

abbrev pub deny : Option ℕ → Denial → Shop → Reply × Shop
deny who why shop = (Reply.denied why, note who why shop)

-- `update_tool_status`
abbrev pub set_status : ℕ → ToolStatus → (ℕ → ToolStatus) → ℕ → ToolStatus
set_status tool_id s status id = if id == tool_id then s else status id

-- The `match` of the loaded status: why the tool may not be started.
unfoldable pub status_denial : ToolStatus → Option Denial
status_denial idle = none
status_denial in_use = some Denial.already_in_use
status_denial maintenance = some Denial.under_maintenance
status_denial broken = some Denial.tool_broken
status_denial repair = some Denial.in_repair
status_denial retired = some Denial.tool_retired

abbrev pub is_idle : ToolStatus → Bool
is_idle idle = true
is_idle _ = false

-- The event, and the status, of a start that has passed the gates; `try_activate_tool` compares the
-- status as it is now.
unfoldable pub start_tool : ToolRow → ℕ → Shop → Reply × Shop
start_tool row uid shop = elim (is_idle (shop.status row.tool.id)) [
  | false ↦ deny (some uid) Denial.already_in_use shop
  | true ↦ (
    Reply.authorized,
    record shop {
      status = set_status row.tool.id in_use shop.status;
      events =
          record {
            tool_id = row.tool.id;
            event_type = "activated";
            old_status = some row.status;
            new_status = some in_use;
            user_id = some uid;
          }
          ∷ shop.events;
    },
  )
]

-- `billing.enabled() && billing.tool_is_metered(&tool)`
abbrev pub is_billed : Bool → Tool → Bool
is_billed billing tool = billing && is_metered tool.usage_flat_fee tool.usage_rate_per_min

module _ {ℓ} {Json : Type ℓ} (uuid : UuidText) (clock : Clockwork Json)
    (facts : ℕ → ℕ → ToolFacts) where
  -- `user_is_authorized_for_tool(user.id, tool.id, tool.requires_training)`
  unfoldable pub is_trained : ℕ → ToolRow → Bool
  is_trained uid row =
      user_is_authorized_for_tool uuid clock uid
        (record (facts uid row.tool.id) { requires_training = row.requires_training })

-- The money's answer.
abbrev pub start_if_opened : ToolRow → ℕ → Shop → Usage × ActivationOutcome → Reply × Shop
start_if_opened row uid shop (usage, ActivationOutcome.denied why) =
    deny (some uid) (Denial.unpaid why) (record shop { usage = usage })
start_if_opened row uid shop (usage, ActivationOutcome.authorized session) =
    start_tool row uid (record shop { usage = usage })

module _ (round : Rounding) (config : BillingConfig) (is_member : ℕ → Bool)
    (tier_of : ℕ → ℕ → Option ToolRateTier) (reference : ℕ → String) (billing : Bool) where
  -- The last gate, and the start.
  unfoldable pub charge_and_start : ToolRow → ℕ → ℕ → ℕ → Shop → Reply × Shop
  unfolding start_tool
  charge_and_start row uid now id shop = elim (is_billed billing row.tool) [
    | false ↦ start_tool row uid shop
    | true ↦
        start_if_opened row uid shop
          (open_session round config is_member tier_of reference uid row.tool now id shop.usage)
  ]

module _ {ℓ} {Json : Type ℓ} (uuid : UuidText) (clock : Clockwork Json) (facts : ℕ → ℕ → ToolFacts)
    (round : Rounding) (config : BillingConfig) (is_member : ℕ → Bool)
    (tier_of : ℕ → ℕ → Option ToolRateTier) (reference : ℕ → String) (billing : Bool) where
  unfoldable pub activate_tool : Option ToolRow → CardResolution → ℕ → ℕ → Shop → Reply × Shop
  unfolding charge_and_start status_denial is_trained
  activate_tool lookup unknown now id shop = deny none Denial.unknown_card shop
  activate_tool lookup (revoked user) now id shop = deny (some user.id) Denial.card_revoked shop
  activate_tool none (active user) now id shop =
      if user.is_active
      then deny (some user.id) Denial.tool_not_found shop
      else deny (some user.id) Denial.user_inactive shop
  activate_tool (some row) (active user) now id shop = elim user.is_active [
    | false ↦ deny (some user.id) Denial.user_inactive shop
    | true ↦ elim (status_denial row.status) [
      | some why ↦ deny (some user.id) why shop
      | none ↦ elim (is_trained uuid clock facts user.id row) [
        | false ↦ deny (some user.id) Denial.training_required shop
        | true ↦
            charge_and_start round config is_member tier_of reference billing row user.id now id
              shop
      ]
    ]
  ]
