-- ===== src/Server/Billing.antt =====
-- server/src/tool_billing.rs: the hold on a member's credit while a metered tool is in use, and the
-- charge afterwards, with the queries of server/src/database.rs that it makes. An amount is a whole
-- number of the currency's smallest unit that is stored, reported usage is in milliseconds. Fees,
-- rates and caps below zero are left out, and so are the audit log and failures of the database.
mod Rows
pub mod Charges
pub mod Holds
pub mod Backing
pub mod Settling
pub mod Runs
pub mod Gates
pub mod OpenRows
mod Examples
unfoldable pub use cooperative_systems_spac.Server.Billing.Rows.*
use cooperative_systems_spac.Prelude.{
  ℕ, suc, ◌+◌, ◌*◌, ◌-◌, ◌/◌, Bool, true, false, ◌&&◌, ◌||◌, not, Option, none, some, List, [], ◌∷◌,
  map, String, ℤ, pos, ltb_ℤ, leb_ℤ, ◌+ℤ◌, neg_ℕ, is_some_and, unwrap_or, or_else, nat_eq,
  string_eq, ◌==◌, if◌then◌else◌, find, filter, ltb, leb,
}
use cooperative_systems_spac.Server.Membership.{
  LedgerEntry, tool_usage, user_balance, insert_ledger_entry, ledger_entry_exists_for_reference,
}

-- The configuration as database.rs gets it. `online_sync`, which these two methods do not read, is left
-- out.
pub record MeteredGate : Type 0 where
  pub require_membership : Bool
  pub prepaid : Bool
  pub min_balance : ℤ
  pub default_max_minutes : ℕ

unfoldable pub gate : BillingConfig → MeteredGate
gate config = record {
  require_membership = config.require_membership;
  prepaid = config.prepaid;
  min_balance = config.min_balance;
  default_max_minutes = config.default_max_session_minutes;
}

module _ (round : Rounding) (g : MeteredGate) where
  unfoldable pub required_for_rate : Option ℕ → Option ℕ → Option ℕ → ℤ
  unfolding max_session_cost
  required_for_rate flat_fee rate_per_min max_minutes =
      if g.prepaid
      then pos (
          max_session_cost round flat_fee rate_per_min
            (unwrap_or g.default_max_minutes max_minutes))
      else g.min_balance

  -- Whether a member with the available balance may use a tool at the rate.
  unfoldable pub authorizes_rate : Option ℕ → Option ℕ → Option ℕ → ℤ → Bool → Bool
  unfolding required_for_rate metered_access_ok
  authorizes_rate flat_fee rate_per_min max_minutes available member =
      if not (is_metered flat_fee rate_per_min)
      then true
      else metered_access_ok member g.require_membership available
          (required_for_rate flat_fee rate_per_min max_minutes)

module _ (round : Rounding) (config : BillingConfig) (is_member : ℕ → Bool)
    (tier_of : ℕ → ℕ → Option ToolRateTier) (reference : ℕ → String) where
  -- The most that a session at the resolved rate costs: what a prepaid gate asks for.
  unfoldable pub rate_cost : EffectiveRate → ℕ
  unfolding max_session_cost
  rate_cost eff =
      max_session_cost round eff.flat_fee eff.rate_per_min
        (unwrap_or config.default_max_session_minutes eff.max_session_minutes)

  unfoldable pub required_available_rate : EffectiveRate → ℤ
  unfolding rate_cost
  required_available_rate eff = if config.prepaid then pos (rate_cost eff) else config.min_balance

  -- The read-only gate for one member; the program asks `authorizes_rate` in its place.
  unfoldable pub metered_authorized : ℕ → Tool → Usage → Bool
  unfolding metered_access_ok required_available_rate
  metered_authorized uid tool u =
      let eff = resolve_effective_billing (tier_of uid tool.id) tool in
      if not (is_metered eff.flat_fee eff.rate_per_min)
      then true
      else metered_access_ok (is_member uid) config.require_membership (available_balance u uid)
          (required_available_rate eff)

  -- The session that `open_session` inserts.
  unfoldable pub new_session : ℕ → Tool → ℕ → ℕ → ToolUsageSession
  unfolding rate_cost
  new_session uid tool now id =
      let eff = resolve_effective_billing (tier_of uid tool.id) tool in
      record {
        id = id;
        tool_id = tool.id;
        user_id = uid;
        started_at = now;
        hold_amount =
            if config.prepaid && is_metered eff.flat_fee eff.rate_per_min then rate_cost eff else 0;
        rate_flat_fee = eff.flat_fee;
        rate_per_min = eff.rate_per_min;
        tier_id = eff.tier_id;
        reported_seconds = none;
        reported_active_seconds = none;
        reported_sensed_seconds = none;
        reported_unsensed_seconds = none;
        charged_amount = none;
        status = opened;
      }

  -- The live gate; `id` is the key that the database gives the session.
  unfoldable pub open_session : ℕ → Tool → ℕ → ℕ → Usage → Usage × ActivationOutcome
  unfolding new_session required_available_rate
  open_session uid tool now id u =
      let eff = resolve_effective_billing (tier_of uid tool.id) tool in
      let metered = is_metered eff.flat_fee eff.rate_per_min in
      let session = new_session uid tool now id in
      if is_set (open_tool_session_for_tool u.sessions tool.id)
      then (u, denied already_open)
      else if metered && config.require_membership && not (is_member uid)
      then (u, denied membership_required)
      else if metered && ltb_ℤ (available_balance u uid) (required_available_rate eff)
      then (u, denied insufficient_balance)
      else (record u { sessions = session ∷ u.sessions }, authorized session)

  -- A report's figures: `none` in the first for one that is not finite or negative, and in the
  -- second for one that was not sent; the third is what was sent, where it is finite and not negative.
  unfoldable pub record_usage : ℕ → Option ℕ → Bool → Option ℕ → Usage → Usage × Bool
  unfolding update_open add_reported_seconds add_reported_active_seconds
  record_usage tool_id none sensed active u = (u, false)
  record_usage tool_id (some seconds) sensed active u =
      elim (open_tool_session_for_tool u.sessions tool_id) [
        | none ↦ (u, false)
        | some session ↦ (
          record u {
            sessions =
                update_open session.id (add_reported_active_seconds active)
                  (update_open session.id (add_reported_seconds seconds sensed) u.sessions);
          },
          true,
        )
      ]

  -- The charge of an open session that stops now.
  unfoldable pub charge_at : Tool → ToolUsageSession → ℕ → ℕ
  unfolding session_charge effective_reported max_minutes
  charge_at tool session now =
      let reported =
        effective_reported tool.usage_basis session.reported_seconds
          session.reported_active_seconds in
      let elapsed = (now - session.started_at) / 1000000000 * 1000 in
      let effective = if ltb elapsed reported then elapsed else reported in
      let captured =
        is_set session.rate_per_min || is_set session.rate_flat_fee || is_set session.tier_id in
      session_charge round (if captured then session.rate_flat_fee else tool.usage_flat_fee)
        (if captured then session.rate_per_min else tool.usage_rate_per_min) effective
        (max_minutes config tool)

  -- The debit of a session, unless one with its reference is there.
  unfoldable pub post_usage :
      ToolUsageSession → ℕ → ℕ → List LedgerEntry → Option (List LedgerEntry)
  post_usage session charge now ledger =
      insert_ledger_entry
        (record {
          user_id = session.user_id;
          entry_type = tool_usage;
          amount = neg_ℕ charge;
          occurred_at = now;
          external_reference = some (reference session.id);
        })
        ledger

  unfoldable pub settle_open_session_for_tool : Tool → SessionStatus → ℕ → Usage → Usage × Option ℕ
  unfolding charge_at post_usage update_open close_session
  settle_open_session_for_tool tool status_on_close now u =
      elim (open_tool_session_for_tool u.sessions tool.id) [
        | none ↦ (u, none)
        | some session ↦
            let charge = charge_at tool session now in
            let sessions =
              update_open session.id (close_session status_on_close charge) u.sessions in
            elim (if ledger_entry_exists_for_reference u.ledger (reference session.id)
              then none
              else post_usage session charge now u.ledger) [
                | none ↦ (record { ledger = u.ledger; sessions = sessions }, none)
                | some ledger ↦ (record { ledger = ledger; sessions = sessions }, some charge)
              ]
      ]

  -- The loop over the candidates; the tools come from their table.
  unfoldable pub sweep_candidates :
      (ℕ → Option Tool) → ℕ → ℕ → List ToolUsageSession → Usage → Usage × ℕ
  unfolding settle_open_session_for_tool max_minutes is_abandoned
  sweep_candidates tool_of grace now [] u = (u, 0)
  sweep_candidates tool_of grace now (session ∷ candidates) u = elim (tool_of session.tool_id) [
    | none ↦ sweep_candidates tool_of grace now candidates u
    | some tool ↦
        if is_abandoned (max_minutes config tool) grace now session.started_at
        then (let (next, charge) = settle_open_session_for_tool tool abandoned now u in
            let rest = sweep_candidates tool_of grace now candidates next in
            (rest.0, if is_set charge then suc rest.1 else rest.1))
        else sweep_candidates tool_of grace now candidates u
  ]

  unfoldable pub sweep_abandoned : (ℕ → Option Tool) → Bool → ℕ → ℕ → Usage → Usage × ℕ
  unfolding sweep_candidates is_abandoned
  sweep_abandoned tool_of enabled grace now u =
      if not enabled
      then (u, 0)
      else sweep_candidates tool_of grace now
          (filter
            (λ (s : ToolUsageSession). is_open s.status && is_abandoned 1 grace now s.started_at)
            u.sessions)
          u
