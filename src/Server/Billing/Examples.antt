-- ===== src/Server/Billing/Examples.antt =====
-- One tool at 10 cents a minute with a cap of two hours, amounts in cents, and a member with 20.
use cooperative_systems_spac.Prelude.{
  ℕ, ◌≡◌, refl, ◌/◌, ◌≤◌, ◌&&◌, Bool, true, false, not, Option, none, some, List, [], ◌∷◌, String,
  pos, negsuc, ◌≤ℤ◌, ◌+ℤ◌, unwrap_or, arith,
}
use cooperative_systems_spac.Server.Membership.{
  cash_payment, user_balance, insert_ledger_entry, ledger_entry_exists_for_reference,
}
use cooperative_systems_spac.Server.Billing.{
  Rounding, Tool, ToolRateTier, Usage, BillingConfig, is_set, is_metered, max_session_cost,
  session_charge, effective_reported, resolve_effective_billing, sum_open_tool_holds,
  available_balance, open_tool_session_for_tool, max_minutes, rate_cost, new_session, open_session,
  gate, authorizes_rate, resolve_effective_billing, available_balance, record_usage,
  settle_open_session_for_tool, charge_at, post_usage, update_open, close_session,
  required_available_rate, add_reported_seconds, add_reported_active_seconds,
}
use cooperative_systems_spac.Server.Billing.Charges.{RoundingLaws}
use cooperative_systems_spac.Server.Billing.Holds.{IsBacked}
use cooperative_systems_spac.Server.Billing.Runs.{
  UsageEvent, start, report, stop, happen_all, happen_all-IsBacked,
}
use cooperative_systems_spac.Server.Billing.Gates.{is_authorized, open_session-authorizes_rate}

abbrev round : Rounding
round n = n / 60000

round_laws : RoundingLaws round
round_laws = record { monotone = λ a b h. omega arith; nothing = refl }

abbrev config : BillingConfig
config = record {
  prepaid = true;
  require_membership = true;
  min_balance = pos 0;
  default_max_session_minutes = 120;
}

abbrev tool_of : ℕ → Tool
tool_of i = record {
  id = i;
  usage_flat_fee = some 100;
  usage_rate_per_min = some 10;
  usage_max_session_minutes = none;
  usage_basis = "occupancy";
}

abbrev no_tier : ℕ → ℕ → Option ToolRateTier
no_tier uid i = none

abbrev everyone : ℕ → Bool
everyone uid = true

abbrev reference : ℕ → String
reference id = "session"

abbrev usage : Usage
usage = record {
  ledger =
      record {
        user_id = 7;
        entry_type = cash_payment;
        amount = pos 2000;
        occurred_at = 0;
        external_reference = none;
      }
      ∷ [];
  sessions = [];
}

abbrev events : List UsageEvent
events = start 7 1 0 50 ∷ report 1 (some 1800000) false none ∷ stop 1 false 3600000000000 ∷ []

in_credit : (uid : ℕ) → pos 0 ≤ℤ available_balance usage uid
unfolding available_balance user_balance sum_open_tool_holds ◌+ℤ◌
in_credit uid = ground arith

backed : IsBacked round round_laws config everyone no_tier reference tool_of usage
backed = record { covered = refl; available = in_credit }

wide :
    (uid i : ℕ)
    → max_minutes config (tool_of i)
      ≤ unwrap_or config.default_max_session_minutes
          (resolve_effective_billing (no_tier uid (tool_of i).id) (tool_of i)).max_session_minutes
unfolding max_minutes resolve_effective_billing
wide uid i = omega arith

happen_all-IsBacked_example :
    IsBacked round round_laws config everyone no_tier reference tool_of
      (happen_all round round_laws config everyone no_tier reference tool_of events usage)
happen_all-IsBacked_example =
    happen_all-IsBacked round round_laws config everyone no_tier reference tool_of events usage refl
      (λ i. refl) wide backed

-- Half an hour of use: the fee and thirty minutes.
charged :
    user_balance
      (happen_all round round_laws config everyone no_tier reference tool_of events usage).ledger
      7
    ≡ pos 1600
unfolding open_session new_session resolve_effective_billing is_metered rate_cost max_session_cost
    available_balance user_balance sum_open_tool_holds required_available_rate
    open_tool_session_for_tool record_usage update_open add_reported_seconds
    add_reported_active_seconds settle_open_session_for_tool charge_at session_charge
    effective_reported max_minutes post_usage insert_ledger_entry ledger_entry_exists_for_reference
    close_session ◌+ℤ◌
charged = refl

open_session-authorizes_rate_example :
    let eff = resolve_effective_billing (no_tier 7 1) (tool_of 1) in
    is_authorized (open_session round config everyone no_tier reference 7 (tool_of 1) 0 50 usage).1
    ≡ (not (is_set (open_tool_session_for_tool usage.sessions 1))
        && authorizes_rate round
            (gate config)
            eff.flat_fee
            eff.rate_per_min
            eff.max_session_minutes
            (available_balance usage 7)
            (everyone 7))
open_session-authorizes_rate_example =
    open_session-authorizes_rate round config everyone no_tier reference 7 0 50 (tool_of 1) usage

-- A tier whose cap of ten minutes is lower than the tool's.
abbrev short_tier : ℕ → ℕ → Option ToolRateTier
short_tier uid i =
    some (record {
      id = 9;
      flat_fee = some 100;
      rate_per_min = some 10;
      max_session_minutes = some 10;
    })

abbrev two_hours : List UsageEvent
two_hours = start 7 1 0 50 ∷ report 1 (some 14400000) false none ∷ stop 1 false 14400000000000 ∷ []

abbrev poor : Usage
poor = record {
  ledger =
      record {
        user_id = 7;
        entry_type = cash_payment;
        amount = pos 250;
        occurred_at = 0;
        external_reference = none;
      }
      ∷ [];
  sessions = [];
}

-- The hold is for ten minutes and the charge for two hours: the balance ends below zero.
overdrawn :
    user_balance
      (happen_all round round_laws config everyone short_tier reference tool_of two_hours
        poor).ledger
      7
    ≡ negsuc 1049
unfolding open_session new_session resolve_effective_billing is_metered rate_cost max_session_cost
    available_balance user_balance sum_open_tool_holds required_available_rate
    open_tool_session_for_tool record_usage update_open add_reported_seconds
    add_reported_active_seconds settle_open_session_for_tool charge_at session_charge
    effective_reported max_minutes post_usage insert_ledger_entry ledger_entry_exists_for_reference
    close_session ◌+ℤ◌
overdrawn = refl
