-- ===== src/Server/Billing/Holds.antt =====
-- server/src/tool_billing.rs: under prepaid billing the holds keep every member's credit from going
-- below zero.
use cooperative_systems_spac.Prelude.{
  ℕ, ◌≡◌, refl, ◌+◌, ◌≤◌, Bool, true, false, ◌&&◌, ◌||◌, not, Option, some, List, [], ◌∷◌, String,
  pos, ◌≤ℤ◌, nat_eq, string_eq, ◌==◌, ==_iff, ==_refl, if◌then◌else◌, all, leb, arith, inl, inr,
  Bool-cases,
}
use cooperative_systems_spac.Server.Billing.{
  Rounding, Tool, ToolRateTier, ToolUsageSession, SessionStatus, is_open, Usage, BillingConfig,
  is_set, max_session_cost, sum_open_tool_holds, available_balance, open_tool_session_for_tool,
  max_minutes, update_open, charge_at, close_session,
}
use cooperative_systems_spac.Server.Billing.Charges.{RoundingLaws, session_charge-le_cost}

pub sum-update_open :
    (id : ℕ) (status : SessionStatus) (charge uid : ℕ) (sessions : List ToolUsageSession)
    → is_open status ≡ false
    → sum_open_tool_holds (update_open id (close_session status charge) sessions) uid
      ≤ sum_open_tool_holds sessions uid
unfolding sum_open_tool_holds update_open close_session
sum-update_open id status charge uid [] h = omega arith
sum-update_open id status charge uid (s ∷ sessions) h =
    ground (arith, sum-update_open id status charge uid sessions h)

module _ (round : Rounding) (laws : RoundingLaws round) (config : BillingConfig)
    (is_member : ℕ → Bool) (tier_of : ℕ → ℕ → Option ToolRateTier) (reference : ℕ → String)
    (tool_of : ℕ → Tool) where
  abbrev pub captured : ToolUsageSession → Bool
  captured s = is_set s.rate_per_min || is_set s.rate_flat_fee || is_set s.tier_id

  -- The most that a session can be charged, with its tool's cap.
  abbrev pub cost_of : Tool → ToolUsageSession → ℕ
  cost_of tool s =
      max_session_cost round (if captured s then s.rate_flat_fee else tool.usage_flat_fee)
        (if captured s then s.rate_per_min else tool.usage_rate_per_min) (max_minutes config tool)

  -- An open session's hold covers whatever it can be charged.
  abbrev pub is_covered : ToolUsageSession → Bool
  is_covered s = not (is_open s.status) || leb (cost_of (tool_of s.tool_id) s) s.hold_amount

  -- Every open session is covered, and no member's available balance is negative.
  pub record IsBacked (u : Usage) : Type 0 where
    pub covered : all is_covered u.sessions ≡ true
    pub available : (uid : ℕ) → pos 0 ≤ℤ available_balance u uid

  pub charge_at-le_cost :
      (tool : Tool) (s : ToolUsageSession) (now : ℕ)
      → charge_at round config is_member tier_of reference tool s now ≤ cost_of tool s
  unfolding charge_at
  charge_at-le_cost tool s now =
      session_charge-le_cost round laws _ _ _ (max_minutes config tool) _ (omega arith)

  -- What the first open session of a tool is, where there is one.
  pub find-open :
      (tool_id : ℕ) (sessions : List ToolUsageSession) (s : ToolUsageSession)
      → open_tool_session_for_tool sessions tool_id ≡ some s
      → (s.tool_id ≡ tool_id) × (is_open s.status ≡ true)
  unfolding open_tool_session_for_tool
  find-open tool_id [] s h = cc
  find-open tool_id (x ∷ sessions) s h =
      elim (Bool-cases (x.tool_id == tool_id && is_open x.status)) [
        | inr passed ↦ find-open tool_id sessions s (rw passed at h)
        | inl here ↦
            let e : x ≡ s = cc (rw here at h) in
            let same : (x.tool_id == tool_id) ≡ true = ground arith in
            let live : is_open x.status ≡ true = ground arith in
            (rw (← e) ((==_iff x.tool_id tool_id).0 same), rw (← e) live)
      ]

  pub found_covered :
      (tool_id : ℕ) (sessions : List ToolUsageSession) (s : ToolUsageSession)
      → open_tool_session_for_tool sessions tool_id ≡ some s
      → all is_covered sessions ≡ true
      → is_covered s ≡ true
  unfolding open_tool_session_for_tool
  found_covered tool_id [] s h c = cc
  found_covered tool_id (x ∷ sessions) s h c =
      elim (Bool-cases (x.tool_id == tool_id && is_open x.status)) [
        | inr passed ↦ found_covered tool_id sessions s (rw passed at h) (ground arith)
        | inl here ↦
            let e : x ≡ s = cc (rw here at h) in
            let fine : is_covered x ≡ true = ground arith in rw (← e) fine
      ]

  -- Closing a session takes its hold off its member's.
  pub sum-closed :
      (tool_id : ℕ) (status : SessionStatus) (charge : ℕ) (sessions : List ToolUsageSession)
      (s : ToolUsageSession)
      → is_open status ≡ false
      → open_tool_session_for_tool sessions tool_id ≡ some s
      → sum_open_tool_holds (update_open s.id (close_session status charge) sessions) s.user_id
          + s.hold_amount
        ≤ sum_open_tool_holds sessions s.user_id
  unfolding open_tool_session_for_tool sum_open_tool_holds update_open close_session
  sum-closed tool_id status charge [] s h f = cc
  sum-closed tool_id status charge (x ∷ sessions) s h f =
      elim (Bool-cases (x.tool_id == tool_id && is_open x.status)) [
        | inr passed ↦
            let rest = sum-closed tool_id status charge sessions s h (rw passed at f) in
            ground (arith, rest)
        | inl here ↦
            let e : x ≡ s = cc (rw here at f) in
            let rest = sum-update_open s.id status charge s.user_id sessions h in
            let live : is_open s.status ≡ true = rw (← e) (ground arith) in
            rw e (ground (arith, rest, ==_refl s.id, ==_refl s.user_id, live))
      ]

  pub all-closed :
      (id : ℕ) (status : SessionStatus) (charge : ℕ) (sessions : List ToolUsageSession)
      → is_open status ≡ false
      → all is_covered sessions ≡ true
      → all is_covered (update_open id (close_session status charge) sessions) ≡ true
  unfolding update_open close_session
  all-closed id status charge [] h c = refl
  all-closed id status charge (x ∷ sessions) h c =
      elim (Bool-cases (x.id == id && is_open x.status)) [
        | inr other ↦ ground (arith, all-closed id status charge sessions)
        | inl here ↦ rw (here, h) (all-closed id status charge sessions h (ground arith))
      ]
