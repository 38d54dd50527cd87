-- ===== src/Server/Billing/Gates.antt =====
-- server/src/tool_billing.rs: the live gate against the read-only one.
use cooperative_systems_spac.Prelude.{
  ℕ, ◌≡◌, refl, ap, ◌∙◌, Bool, true, false, ◌&&◌, not, Option, String, ltb_ℤ, arith, inl, inr,
  Bool-cases,
}
use cooperative_systems_spac.Server.Billing.{
  Rounding, Tool, ToolRateTier, Usage, BillingConfig, ActivationOutcome, authorized, denied, is_set,
  is_metered, metered_access_ok, resolve_effective_billing, available_balance,
  open_tool_session_for_tool, required_available_rate, metered_authorized, open_session, gate,
  required_for_rate, authorizes_rate, rate_cost,
}

abbrev pub is_authorized : ActivationOutcome → Bool
is_authorized (authorized session) = true
is_authorized (denied reason) = false

module _ (round : Rounding) (config : BillingConfig) (is_member : ℕ → Bool)
    (tier_of : ℕ → ℕ → Option ToolRateTier) (reference : ℕ → String) where
  open_session-metered_authorized :
      (uid now id : ℕ) (tool : Tool) (u : Usage)
      → is_authorized (open_session round config is_member tier_of reference uid tool now id u).1
        ≡ (not (is_set (open_tool_session_for_tool u.sessions tool.id))
            && metered_authorized round config is_member tier_of reference uid tool u)
  unfolding open_session metered_authorized metered_access_ok
  open_session-metered_authorized uid now id tool u =
      let eff = resolve_effective_billing (tier_of uid tool.id) tool in
      let metered = is_metered eff.flat_fee eff.rate_per_min in
      let required = required_available_rate round config is_member tier_of reference eff in
      elim (Bool-cases (is_set (open_tool_session_for_tool u.sessions tool.id))) [
        | inl busy ↦ rw (busy, open_session) refl
        | inr idle ↦
            elim (Bool-cases (metered && config.require_membership && not (is_member uid))) [
              | inl outside ↦ rw (idle, outside, open_session) (ground (arith, outside))
              | inr inside ↦
                  elim (Bool-cases (metered && ltb_ℤ (available_balance u uid) required)) [
                    | inl short ↦
                        rw (idle, inside, short, open_session) (ground (arith, inside, short))
                    | inr enough ↦
                        rw (idle, inside, enough, open_session) (ground (arith, inside, enough))
                  ]
            ]
      ]

  -- The read-only gates ask for the same: `metered_authorized`, and `authorizes_rate` on the rate that is
  -- resolved for the member.
  metered_authorized-authorizes_rate :
      (uid : ℕ) (tool : Tool) (u : Usage)
      → let eff = resolve_effective_billing (tier_of uid tool.id) tool in
        metered_authorized round config is_member tier_of reference uid tool u
        ≡ authorizes_rate round
            (gate config)
            eff.flat_fee
            eff.rate_per_min
            eff.max_session_minutes
            (available_balance u uid)
            (is_member uid)
  unfolding metered_authorized authorizes_rate gate required_for_rate required_available_rate
      rate_cost
  metered_authorized-authorizes_rate uid tool u = refl

  -- The live gate authorizes exactly when the tool has no open session and the gate of the allow-list and
  -- the self-check, `authorizes_rate` of the same configuration, says yes to the rate that is resolved for
  -- the member, their available balance and their membership.
  pub open_session-authorizes_rate :
      (uid now id : ℕ) (tool : Tool) (u : Usage)
      → let eff = resolve_effective_billing (tier_of uid tool.id) tool in
        is_authorized (open_session round config is_member tier_of reference uid tool now id u).1
        ≡ (not (is_set (open_tool_session_for_tool u.sessions tool.id))
            && authorizes_rate round
                (gate config)
                eff.flat_fee
                eff.rate_per_min
                eff.max_session_minutes
                (available_balance u uid)
                (is_member uid))
  open_session-authorizes_rate uid now id tool u =
      open_session-metered_authorized uid now id tool u
      ∙ ap (λ b. not (is_set (open_tool_session_for_tool u.sessions tool.id)) && b)
          (metered_authorized-authorizes_rate uid tool u)
