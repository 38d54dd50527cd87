-- ===== src/Server/Billing/Rows.antt =====
-- server/src/tool_billing.rs and server/src/database.rs: rates, the rows of a metered tool's sessions, and
-- what is read and written of them.
use cooperative_systems_spac.Prelude.{
  ℕ, ◌+◌, ◌*◌, Bool, true, false, ◌&&◌, ◌||◌, not, Option, none, some, List, [], ◌∷◌, String, ℤ,
  leb_ℤ, ◌+ℤ◌, neg_ℕ, is_some_and, unwrap_or, or_else, nat_eq, string_eq, ◌==◌, if◌then◌else◌, find,
  ltb, leb,
}
use cooperative_systems_spac.Server.Membership.{LedgerEntry, user_balance}

-- `is_some()`
abbrev pub is_set {ℓ} : {A : Type ℓ} → Option A → Bool
is_set o = is_some_and (λ _. true) o

unfoldable pub is_metered : Option ℕ → Option ℕ → Bool
is_metered flat_fee rate_per_min =
    is_some_and (λ x. ltb 0 x) flat_fee || is_some_and (λ x. ltb 0 x) rate_per_min

-- `.round(2)` after BigDecimal's division by 60: what a number of sixty-thousandths of the smallest
-- unit (an amount a minute times milliseconds) comes to.
abbrev pub Rounding : Type 0
Rounding = ℕ → ℕ

unfoldable pub max_session_cost : Rounding → Option ℕ → Option ℕ → ℕ → ℕ
max_session_cost round flat_fee rate_per_min max_minutes =
    let flat = unwrap_or 0 flat_fee in
    let rate = unwrap_or 0 rate_per_min in round (flat * 60000 + rate * (max_minutes * 60000))

unfoldable pub effective_reported : String → Option ℕ → Option ℕ → ℕ
effective_reported basis reported_seconds reported_active_seconds =
    if basis == "active"
    then unwrap_or 0 (or_else reported_active_seconds reported_seconds)
    else unwrap_or 0 reported_seconds

unfoldable pub session_charge : Rounding → Option ℕ → Option ℕ → ℕ → ℕ → ℕ
session_charge round flat_fee rate_per_min effective max_minutes =
    let flat = unwrap_or 0 flat_fee in
    let rate = unwrap_or 0 rate_per_min in
    let max = max_minutes * 60000 in
    let billable = if ltb max effective then max else effective in
    round (flat * 60000 + rate * billable)

unfoldable pub metered_access_ok : Bool → Bool → ℤ → ℤ → Bool
metered_access_ok is_member require_membership available required =
    (not require_membership || is_member) && leb_ℤ required available

-- The columns of a tool that billing reads.
pub record Tool : Type 0 where
  pub id : ℕ
  pub usage_flat_fee : Option ℕ
  pub usage_rate_per_min : Option ℕ
  pub usage_max_session_minutes : Option ℕ
  pub usage_basis : String

pub record ToolRateTier : Type 0 where
  pub id : ℕ
  pub flat_fee : Option ℕ
  pub rate_per_min : Option ℕ
  pub max_session_minutes : Option ℕ

pub record EffectiveRate : Type 0 where
  pub flat_fee : Option ℕ
  pub rate_per_min : Option ℕ
  pub max_session_minutes : Option ℕ
  pub tier_id : Option ℕ

-- `resolve_effective_billing`, from the member's tier on the tool.
unfoldable pub resolve_effective_billing : Option ToolRateTier → Tool → EffectiveRate
resolve_effective_billing (some tier) tool = record {
  flat_fee = tier.flat_fee;
  rate_per_min = tier.rate_per_min;
  max_session_minutes = or_else tier.max_session_minutes tool.usage_max_session_minutes;
  tier_id = some tier.id;
}
resolve_effective_billing none tool = record {
  flat_fee = tool.usage_flat_fee;
  rate_per_min = tool.usage_rate_per_min;
  max_session_minutes = tool.usage_max_session_minutes;
  tier_id = none;
}

pub data SessionStatus : Type 0 where
  opened : SessionStatus
  settled : SessionStatus
  abandoned : SessionStatus

abbrev pub is_open : SessionStatus → Bool
is_open opened = true
is_open settled = false
is_open abandoned = false

pub record ToolUsageSession : Type 0 where
  pub id : ℕ
  pub tool_id : ℕ
  pub user_id : ℕ
  pub started_at : ℕ
  pub hold_amount : ℕ
  pub rate_flat_fee : Option ℕ
  pub rate_per_min : Option ℕ
  pub tier_id : Option ℕ
  pub reported_seconds : Option ℕ
  pub reported_active_seconds : Option ℕ
  pub reported_sensed_seconds : Option ℕ
  pub reported_unsensed_seconds : Option ℕ
  pub charged_amount : Option ℕ
  pub status : SessionStatus

-- The two tables that billing writes.
pub record Usage : Type 0 where
  pub ledger : List LedgerEntry
  pub sessions : List ToolUsageSession

unfoldable pub sum_open_tool_holds : List ToolUsageSession → ℕ → ℕ
sum_open_tool_holds [] uid = 0
sum_open_tool_holds (s ∷ sessions) uid =
    let rest = sum_open_tool_holds sessions uid in
    if s.user_id == uid && is_open s.status then s.hold_amount + rest else rest

unfoldable pub available_balance : Usage → ℕ → ℤ
available_balance u uid = user_balance u.ledger uid +ℤ neg_ℕ (sum_open_tool_holds u.sessions uid)

unfoldable pub open_tool_session_for_tool : List ToolUsageSession → ℕ → Option ToolUsageSession
open_tool_session_for_tool sessions tool_id =
    find (λ (s : ToolUsageSession). s.tool_id == tool_id && is_open s.status) sessions

pub record BillingConfig : Type 0 where
  pub prepaid : Bool
  pub require_membership : Bool
  pub min_balance : ℤ
  pub default_max_session_minutes : ℕ

pub data DeniedReason : Type 0 where
  already_open : DeniedReason
  membership_required : DeniedReason
  insufficient_balance : DeniedReason

pub data ActivationOutcome : Type 0 where
  authorized : ToolUsageSession → ActivationOutcome
  denied : DeniedReason → ActivationOutcome

-- One increment, from a report whose device senses the machine or only switches power.
unfoldable pub add_reported_seconds : ℕ → Bool → ToolUsageSession → ToolUsageSession
add_reported_seconds seconds true s =
    let total = some (unwrap_or 0 s.reported_sensed_seconds + seconds) in
    record s { reported_sensed_seconds = total; reported_seconds = total }
add_reported_seconds seconds false s =
    let total = some (unwrap_or 0 s.reported_unsensed_seconds + seconds) in
    record s {
      reported_unsensed_seconds = total;
      reported_seconds = if is_set s.reported_sensed_seconds then s.reported_seconds else total;
    }

unfoldable pub add_reported_active_seconds : Option ℕ → ToolUsageSession → ToolUsageSession
add_reported_active_seconds none s = s
add_reported_active_seconds (some active) s = record s {
  reported_active_seconds = some (unwrap_or 0 s.reported_active_seconds + active);
}

-- `UPDATE ... WHERE id = ... AND status = 'open'`
unfoldable pub update_open :
    ℕ → (ToolUsageSession → ToolUsageSession) → List ToolUsageSession → List ToolUsageSession
update_open id f [] = []
update_open id f (s ∷ sessions) =
    let rest = update_open id f sessions in
    if s.id == id && is_open s.status then f s ∷ rest else s ∷ rest

unfoldable pub close_session : SessionStatus → ℕ → ToolUsageSession → ToolUsageSession
close_session status charge s = record s { charged_amount = some charge; status = status }

-- `started_at < abandoned_cutoff(max_minutes, grace_minutes, now)`
unfoldable pub is_abandoned : ℕ → ℕ → ℕ → ℕ → Bool
is_abandoned minutes grace now started_at =
    let cap = if leb 1 minutes then minutes else 1 in
    ltb (started_at + (cap + grace) * 60000000000) now

unfoldable pub max_minutes : BillingConfig → Tool → ℕ
max_minutes config tool =
    unwrap_or config.default_max_session_minutes tool.usage_max_session_minutes
