-- ===== src/Server/Billing/Backing.antt =====
-- server/src/tool_billing.rs: a new session under prepaid billing.
use cooperative_systems_spac.Prelude.{
  ℕ, ◌≡◌, refl, ◌+◌, ◌≤◌, Bool, true, false, ◌&&◌, ◌||◌, not, Option, none, some, List, ◌∷◌, String,
  ℤ, pos, ◌≤ℤ◌, ltb_ℤ, leb_ℤ, ◌+ℤ◌, neg_ℕ, parts_add, unwrap_or, nat_eq, string_eq, ◌==◌, ==_iff,
  if◌then◌else◌, all, leb, ◌⊎◌, arith, inl, inr, Bool-cases,
}
use cooperative_systems_spac.Server.Membership.{user_balance}
use cooperative_systems_spac.Server.Billing.{
  Rounding, Tool, ToolRateTier, EffectiveRate, ToolUsageSession, Usage, BillingConfig, is_set,
  is_metered, max_session_cost, resolve_effective_billing, sum_open_tool_holds, available_balance,
  open_tool_session_for_tool, max_minutes, rate_cost, required_available_rate, new_session,
  open_session,
}
use cooperative_systems_spac.Server.Billing.Charges.{
  RoundingLaws, max_session_cost-free, max_session_cost_mono,
}
use cooperative_systems_spac.Server.Billing.Holds.{cost_of, is_covered, IsBacked}

all_cons :
    (p : ToolUsageSession → Bool) (x : ToolUsageSession) (xs : List ToolUsageSession)
    → p x ≡ true
    → all p xs ≡ true
    → all p (x ∷ xs) ≡ true
all_cons p x xs h hs = ground arith

leb_of_le : (a b : ℕ) → a ≤ b → leb a b ≡ true
leb_of_le a b h = ground arith

-- The rates on a session are the ones that it is charged at.
rates_captured :
    (tier : Option ToolRateTier) (tool : Tool)
    → ((if is_set (resolve_effective_billing tier tool).rate_per_min
            || is_set (resolve_effective_billing tier tool).flat_fee
            || is_set (resolve_effective_billing tier tool).tier_id
          then (resolve_effective_billing tier tool).flat_fee
          else tool.usage_flat_fee)
        ≡ (resolve_effective_billing tier tool).flat_fee)
      × ((if is_set (resolve_effective_billing tier tool).rate_per_min
              || is_set (resolve_effective_billing tier tool).flat_fee
              || is_set (resolve_effective_billing tier tool).tier_id
            then (resolve_effective_billing tier tool).rate_per_min
            else tool.usage_rate_per_min)
          ≡ (resolve_effective_billing tier tool).rate_per_min)
unfolding resolve_effective_billing
rates_captured none tool = (ground arith, ground arith)
rates_captured (some tier) tool = (ground arith, ground arith)

more_held :
    (balance : ℤ) (sum hold : ℕ)
    → leb_ℤ (pos hold) (balance +ℤ neg_ℕ sum) ≡ true
    → pos 0 ≤ℤ (balance +ℤ neg_ℕ (hold + sum))
more_held balance sum hold h =
    let a = parts_add balance (neg_ℕ sum) in
    let b = parts_add balance (neg_ℕ (hold + sum)) in ground arith

module _ (round : Rounding) (laws : RoundingLaws round) (config : BillingConfig)
    (is_member : ℕ → Bool) (tier_of : ℕ → ℕ → Option ToolRateTier) (reference : ℕ → String)
    (tool_of : ℕ → Tool) where
  -- The rate of a member on a tool.
  abbrev rate_of : ℕ → Tool → EffectiveRate
  rate_of uid tool = resolve_effective_billing (tier_of uid tool.id) tool

  new_session-cost :
      (uid now id : ℕ) (tool : Tool)
      → cost_of round laws config is_member tier_of reference tool_of tool
          (new_session round config is_member tier_of reference uid tool now id)
        ≡ max_session_cost round
            (rate_of uid tool).flat_fee
            (rate_of uid tool).rate_per_min
            (max_minutes config tool)
  unfolding new_session
  new_session-cost uid now id tool =
      let (flat, rate) = rates_captured (tier_of uid tool.id) tool in rw (flat, rate) refl

  -- The hold of a new session covers it, where no tier has a lower cap than its tool.
  new_session-is_covered :
      (uid now id : ℕ) (tool : Tool)
      → config.prepaid ≡ true
      → max_minutes config tool
        ≤ unwrap_or config.default_max_session_minutes (rate_of uid tool).max_session_minutes
      → cost_of round laws config is_member tier_of reference tool_of tool
          (new_session round config is_member tier_of reference uid tool now id)
        ≤ (new_session round config is_member tier_of reference uid tool now id).hold_amount
  unfolding new_session rate_cost max_minutes
  new_session-is_covered uid now id tool prepaid wide =
      let cost = new_session-cost uid now id tool in
      let eff = rate_of uid tool in
      elim (Bool-cases (is_metered eff.flat_fee eff.rate_per_min)) [
        | inl metered ↦
            let grows = max_session_cost_mono round laws eff.flat_fee eff.rate_per_min _ _ wide in
            rw cost (rw (prepaid, metered) grows)
        | inr free ↦
            let nothing =
              max_session_cost-free round laws eff.flat_fee eff.rate_per_min
                (max_minutes config tool) free in
            rw cost (rw nothing (omega arith))
      ]

  -- What a live gate does to the tables: nothing, or it adds the session where the balance suffices.
  open_session-adds :
      (uid now id : ℕ) (tool : Tool) (u : Usage)
      → ((open_session round config is_member tier_of reference uid tool now id u).0 ≡ u)
        ⊎ (((open_session round config is_member tier_of reference uid tool now id u).0 ≡ record u {
          sessions =
              new_session round config is_member tier_of reference uid tool now id ∷ u.sessions;
        })
            × ((is_metered (rate_of uid tool).flat_fee (rate_of uid tool).rate_per_min
                  && ltb_ℤ (available_balance u uid) (
                      required_available_rate round config is_member tier_of reference
                        (rate_of uid tool)))
                ≡ false))
  unfolding open_session
  open_session-adds uid now id tool u =
      let eff = rate_of uid tool in
      let metered = is_metered eff.flat_fee eff.rate_per_min in
      elim (Bool-cases (is_set (open_tool_session_for_tool u.sessions tool.id))) [
        | inl busy ↦ inl (rw (busy, open_session) refl)
        | inr idle ↦
            elim (Bool-cases (metered && config.require_membership && not (is_member uid))) [
              | inl outside ↦ inl (rw (idle, outside, open_session) refl)
              | inr inside ↦
                  elim (Bool-cases (
                    metered
                    && ltb_ℤ (available_balance u uid)
                        (required_available_rate round config is_member tier_of reference eff))) [
                          | inl short ↦ inl (rw (idle, inside, short, open_session) refl)
                          | inr enough ↦ inr (rw (idle, inside, enough, open_session) refl, enough)
                        ]
            ]
      ]

  hold_available :
      (uid now id : ℕ) (tool : Tool) (u : Usage)
      → config.prepaid ≡ true
      → pos 0 ≤ℤ available_balance u uid
      → (is_metered (rate_of uid tool).flat_fee (rate_of uid tool).rate_per_min
          && ltb_ℤ
              (available_balance u uid)
              (required_available_rate round config is_member tier_of reference (rate_of uid tool)))
        ≡ false
      → leb_ℤ
          (pos (new_session round config is_member tier_of reference uid tool now id).hold_amount)
          (available_balance u uid)
        ≡ true
  unfolding new_session required_available_rate
  hold_available uid now id tool u prepaid credit enough =
      let eff = rate_of uid tool in
      elim (Bool-cases (is_metered eff.flat_fee eff.rate_per_min)) [
        | inr free ↦ simp (prepaid, free) (ground arith)
        | inl metered ↦
            let gate : ltb_ℤ (available_balance u uid)
                  (pos (rate_cost round config is_member tier_of reference eff))
                ≡ false =
              ground (arith, enough, metered, prepaid) in
            simp (prepaid, metered) (ground arith)
      ]

  new-available :
      (uid now id other : ℕ) (tool : Tool) (u : Usage)
      → leb_ℤ
          (pos (new_session round config is_member tier_of reference uid tool now id).hold_amount)
          (available_balance u uid)
        ≡ true
      → pos 0 ≤ℤ available_balance u other
      → pos 0
        ≤ℤ available_balance
            (record u {
              sessions =
                  new_session round config is_member tier_of reference uid tool now id ∷ u.sessions;
            })
            other
  unfolding available_balance sum_open_tool_holds new_session
  new-available uid now id other tool u held credit = elim (Bool-cases (uid == other)) [
    | inr apart ↦ rw apart credit
    | inl same ↦
        let e : uid ≡ other = (==_iff uid other).0 same in
        rw (same, ← e)
          (more_held (user_balance u.ledger uid) (sum_open_tool_holds u.sessions uid) _ held)
  ]

  new-covered :
      (uid now id : ℕ) (tool : Tool) (u : Usage)
      → tool_of tool.id ≡ tool
      → cost_of round laws config is_member tier_of reference tool_of tool
          (new_session round config is_member tier_of reference uid tool now id)
        ≤ (new_session round config is_member tier_of reference uid tool now id).hold_amount
      → all (is_covered round laws config is_member tier_of reference tool_of) u.sessions ≡ true
      → all
          (is_covered round laws config is_member tier_of reference tool_of)
          (new_session round config is_member tier_of reference uid tool now id ∷ u.sessions)
        ≡ true
  unfolding new_session
  new-covered uid now id tool u listed fits covered =
      all_cons (is_covered round laws config is_member tier_of reference tool_of)
        (new_session round config is_member tier_of reference uid tool now id) u.sessions
        (rw listed (leb_of_le _ _ fits)) covered

  -- Under prepaid billing, where the member's tier has no lower cap than the tool: opening a session,
  -- or refusing to, leaves every open session covered by its hold and no available balance negative.
  pub open_session-IsBacked :
      (uid now id : ℕ) (tool : Tool) (u : Usage)
      → config.prepaid ≡ true
      → tool_of tool.id ≡ tool
      → max_minutes config tool
        ≤ unwrap_or config.default_max_session_minutes (rate_of uid tool).max_session_minutes
      → IsBacked round laws config is_member tier_of reference tool_of u
      → IsBacked round laws config is_member tier_of reference tool_of
          (open_session round config is_member tier_of reference uid tool now id u).0
  open_session-IsBacked uid now id tool u prepaid listed wide backed =
      elim (open_session-adds uid now id tool u) [
        | inl same ↦ rw same backed
        | inr (added, enough) ↦
            let fits = new_session-is_covered uid now id tool prepaid wide in
            let held = hold_available uid now id tool u prepaid (backed.available uid) enough in
            rw added (record {
              covered = new-covered uid now id tool u listed fits backed.covered;
              available =
                  λ other. new-available uid now id other tool u held (backed.available other);
            })
      ]
