-- ===== src/Server/ToolRequests/Examples.antt =====
-- One tool with a flat fee of a dollar, a member with 20 dollars, and a tool that breaks while the
-- member's start is on its way.
use cooperative_systems_spac.Prelude.{
  ℕ, ◌≡◌, refl, ◌/◌, Bool, true, false, Option, none, some, [], ◌∷◌, String, pos, ◌⊎◌, ◌+ℤ◌,
}
use cooperative_systems_spac.Server.Membership.{
  cash_payment, user_balance, insert_ledger_entry, ledger_entry_exists_for_reference,
}
use cooperative_systems_spac.Server.Access.{
  ToolFacts, may, is_allow, match_rules, user_is_authorized_for_tool,
}
use cooperative_systems_spac.Server.Rules.{rule_fires, schedule_state_at}
use cooperative_systems_spac.Server.Access.Fixtures.{uuid, clock}
use cooperative_systems_spac.Server.Billing.{
  Rounding, Tool, ToolRateTier, BillingConfig, is_metered, max_session_cost, session_charge,
  effective_reported, resolve_effective_billing, sum_open_tool_holds, available_balance,
  open_tool_session_for_tool, max_minutes, rate_cost, new_session, open_session,
  settle_open_session_for_tool, charge_at, post_usage, update_open, close_session,
  required_available_rate, abandoned,
}
use cooperative_systems_spac.Server.Sweep.{ToolStatus, idle, broken}
use cooperative_systems_spac.Server.ToolRequests.{
  CardResolution, active, ToolRow, Shop, Reply, is_authorized, is_trained, start_tool,
  charge_and_start, activate_tool, status_denial,
}
use cooperative_systems_spac.Server.ToolRequests.Stopping.{
  report_tool_usage, signed_on_user, deactivate_tool, release_tool,
}
use cooperative_systems_spac.Server.ToolRequests.Activation.{may_start, activate_tool-may_start}
use cooperative_systems_spac.Server.ToolRequests.Refusals.{IsQuiet, IsRace, activate_tool-refused}
use cooperative_systems_spac.Server.ToolRequests.Answers.{accepts}
use cooperative_systems_spac.Server.ToolRequests.Reports.{IsOutcome, report_tool_usage-attributed}

abbrev round : Rounding
round n = n / 60000

abbrev config : BillingConfig
config = record {
  prepaid = true;
  require_membership = true;
  min_balance = pos 0;
  default_max_session_minutes = 120;
}

abbrev saw : Tool
saw = record {
  id = 1;
  usage_flat_fee = some 100;
  usage_rate_per_min = none;
  usage_max_session_minutes = none;
  usage_basis = "occupancy";
}

abbrev no_tier : ℕ → ℕ → Option ToolRateTier
no_tier uid i = none

abbrev everyone : ℕ → Bool
everyone uid = true

abbrev reference : ℕ → String
reference id = "session"

abbrev open_to_all : ℕ → ℕ → ToolFacts
open_to_all uid tool_id = record {
  locked_out = false;
  has_steps = false;
  requires_training = false;
  has_active_waiver = false;
  completed_all_steps = false;
}

abbrev loaded : ToolRow
loaded = record { tool = saw; status = idle; requires_training = false }

abbrev card : CardResolution
card = active (record { id = 7; is_active = true })

-- The floor, with the saw's status as it is now.
abbrev shop : ToolStatus → Shop
shop now = record {
  status = λ id. now;
  usage = record {
    ledger =
        record {
          user_id = 7;
          entry_type = cash_payment;
          amount = pos 2000;
          occurred_at = 0;
          external_reference = none;
        }
        ∷ [];
    sessions = [];
  };
  events = [];
  denials = [];
}

abbrev starting : ToolStatus → Reply × Shop
starting now =
    activate_tool uuid clock open_to_all round config everyone no_tier reference true (some loaded)
      card 10 50 (shop now)

activate_tool-may_start_example :
    is_authorized (starting idle).0
    ≡ may_start uuid clock open_to_all round config everyone no_tier reference true
        (some loaded)
        card
        10
        50
        (shop idle)
activate_tool-may_start_example =
    activate_tool-may_start uuid clock open_to_all round config everyone no_tier reference true
      (some loaded) card 10 50 (shop idle)

starting_idle : is_authorized (starting idle).0 ≡ true
unfolding activate_tool charge_and_start start_tool open_session new_session rate_cost
    max_session_cost required_available_rate available_balance user_balance sum_open_tool_holds
    open_tool_session_for_tool resolve_effective_billing is_metered is_trained
    user_is_authorized_for_tool may is_allow match_rules rule_fires schedule_state_at status_denial
    ◌+ℤ◌
starting_idle = refl

activate_tool-refused_example :
    IsQuiet (shop broken) (starting broken).1
    × (((starting broken).1.usage ≡ (shop broken).usage)
        ⊎ IsRace uuid clock open_to_all round config everyone no_tier reference true
            (some loaded)
            card
            10
            50
            (shop broken))
unfolding activate_tool charge_and_start start_tool open_session new_session rate_cost
    max_session_cost required_available_rate available_balance user_balance sum_open_tool_holds
    open_tool_session_for_tool resolve_effective_billing is_metered is_trained
    user_is_authorized_for_tool may is_allow match_rules rule_fires schedule_state_at status_denial
    ◌+ℤ◌
activate_tool-refused_example =
    activate_tool-refused uuid clock open_to_all round config everyone no_tier reference true
      (some loaded) card 10 50 (shop broken) refl

-- The member's report, with the session that the start opened.
report_tool_usage-attributed_example :
    IsOutcome round config everyone no_tier reference true
      (λ uid. none)
      (some loaded)
      (some card)
      (some 60000)
      false
      none
      (starting idle).1
      (accepts true (λ uid. none) (some loaded) (some card) (some 60000) (starting idle).1)
      (report_tool_usage round config everyone no_tier reference true
        (λ uid. none)
        (some loaded)
        (some card)
        (some 60000, false, none)
        (starting idle).1)
report_tool_usage-attributed_example =
    report_tool_usage-attributed round config everyone no_tier reference true (λ uid. none)
      (some loaded) (some card) (some 60000) false none (starting idle).1

-- It is accepted; a stranger's is not.
report_accepted :
    (accepts true (λ uid. none) (some loaded) (some card) (some 60000) (starting idle).1 ≡ true)
    × (accepts true
          (λ uid. none)
          (some loaded)
          (some (active (record { id = 8; is_active = true })))
          (some 60000)
          (starting idle).1
        ≡ false)
unfolding activate_tool charge_and_start start_tool open_session new_session rate_cost
    max_session_cost required_available_rate available_balance user_balance sum_open_tool_holds
    open_tool_session_for_tool resolve_effective_billing is_metered is_trained
    user_is_authorized_for_tool may is_allow match_rules rule_fires schedule_state_at status_denial
    ◌+ℤ◌
report_accepted = (refl, refl)

-- The start that loses the race is refused, and its session is charged when the sweep settles it.
starting_broken : is_authorized (starting broken).0 ≡ false
unfolding activate_tool charge_and_start start_tool open_session new_session rate_cost
    max_session_cost required_available_rate available_balance user_balance sum_open_tool_holds
    open_tool_session_for_tool resolve_effective_billing is_metered is_trained
    user_is_authorized_for_tool may is_allow match_rules rule_fires schedule_state_at status_denial
    ◌+ℤ◌
starting_broken = refl

starting_broken_charged :
    (settle_open_session_for_tool round config everyone no_tier reference saw abandoned
      9000000000000
      (starting broken).1.usage).1
    ≡ some 100
unfolding activate_tool charge_and_start start_tool open_session new_session rate_cost
    max_session_cost required_available_rate available_balance user_balance sum_open_tool_holds
    open_tool_session_for_tool resolve_effective_billing is_metered is_trained
    user_is_authorized_for_tool may is_allow match_rules rule_fires schedule_state_at status_denial
    ◌+ℤ◌ settle_open_session_for_tool charge_at post_usage session_charge effective_reported
    max_minutes insert_ledger_entry ledger_entry_exists_for_reference update_open close_session
starting_broken_charged = refl

-- A stop without a card puts a broken tool back into service.
deactivate_tool_broken :
    (deactivate_tool round config everyone no_tier reference false
        (λ uid. none)
        (some (record { tool = saw; status = broken; requires_training = false }))
        none
        20
        (shop broken)).1.status
      1
    ≡ idle
unfolding deactivate_tool release_tool signed_on_user open_tool_session_for_tool
deactivate_tool_broken = refl
