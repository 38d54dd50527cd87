-- ===== src/Server/ToolRequests/Reports.antt =====
-- server/src/api/toolguard.rs, `report_tool_usage`: to whom usage goes.
use mathlib.Core.Path.{subst}
use cooperative_systems_spac.Prelude.{
  ℕ, Bool, true, false, Option, none, some, String, nat_eq, ◌≡◌, refl, sym, inl, inr, Option-cases,
}
use cooperative_systems_spac.Server.Billing.{Rounding, BillingConfig, ToolRateTier}
use cooperative_systems_spac.Server.ToolRequests.{
  Member, CardResolution, active, revoked, unknown, ToolRow, Shop, Reply,
}
use cooperative_systems_spac.Server.ToolRequests.Stopping.{
  signed_on_user, report_as, report_tool_usage,
}
use cooperative_systems_spac.Server.ToolRequests.Answers.{
  is_done, reporter, accepts_from, accepts, IsRefused, IsLogged, run, IsAnswer, run-IsAnswer,
}

module _ (round : Rounding) (config : BillingConfig) (is_member : ℕ → Bool)
    (tier_of : ℕ → ℕ → Option ToolRateTier) (reference : ℕ → String) (billing : Bool) where
  -- What an answer must be where the report is accepted, and where it is not.
  abbrev pub IsOutcome :
      (ℕ → Option Member)
      → Option ToolRow
      → Option CardResolution
      → Option ℕ
      → Bool
      → Option ℕ
      → Shop
      → Bool
      → Reply × Shop
      → Type 0
  IsOutcome user_of lookup card seconds sensed busy shop accepted after =
      (is_done after.0 ≡ accepted) × elim accepted [
        | false ↦ IsRefused shop after.1
        | true ↦
            (row : ToolRow) × (uid : ℕ) × (lookup ≡ some row)
            × (reporter user_of row card shop ≡ some uid)
            × IsLogged billing row uid seconds sensed busy shop after.1
      ]

  module _ (user_of : ℕ → Option Member) (card : Option CardResolution) (seconds : Option ℕ)
      (sensed : Bool) (busy : Option ℕ) (shop : Shop) where
    attributed :
        (row : ToolRow) (uid : ℕ) (accepted : Bool) (after : Reply × Shop)
        → reporter user_of row card shop ≡ some uid
        → IsAnswer round config is_member tier_of reference billing row uid sensed busy shop seconds
            accepted after
        → IsOutcome user_of (some row) card seconds sensed busy shop accepted after
    attributed row uid false after who (done, refused) = (done, refused)
    attributed row uid true after who (done, logged) = (done, (row, uid, refl, who, logged))

    -- A known reporter's report is `report_as`.
    attributed_as :
        (row : ToolRow) (uid : ℕ) (after : Reply × Shop)
        → reporter user_of row card shop ≡ some uid
        → after
          ≡ report_as round config is_member tier_of reference billing row uid
              (seconds, sensed, busy)
              shop
        → IsOutcome user_of
            (some row)
            card
            seconds
            sensed
            busy
            shop
            (accepts billing user_of (some row) card seconds shop)
            after
    attributed_as row uid after who run_as =
        let a : accepts billing user_of (some row) card seconds shop
            ≡ accepts_from billing row uid seconds shop =
          rw (who, accepts) refl in
        subst (λ b. IsOutcome user_of (some row) card seconds sensed busy shop b after) (sym a)
          (subst
            (λ x.
              IsOutcome user_of (some row) card seconds sensed busy shop
                (accepts_from billing row uid seconds shop) x)
            (sym run_as)
            (attributed row uid (accepts_from billing row uid seconds shop)
              (run round config is_member tier_of reference billing row uid sensed busy shop
                seconds)
              who
              (run-IsAnswer round config is_member tier_of reference billing row uid sensed busy
                shop seconds)))

  nobody_signed_on :
      (user_of : ℕ → Option Member) (row : ToolRow) (seconds : Option ℕ) (sensed : Bool)
      (busy : Option ℕ) (shop : Shop)
      → signed_on_user user_of row shop ≡ none
      → IsOutcome user_of
          (some row)
          none
          seconds
          sensed
          busy
          shop
          (accepts billing user_of (some row) none seconds shop)
          (report_tool_usage round config is_member tier_of reference billing user_of
            (some row)
            none
            (seconds, sensed, busy)
            shop)
  unfolding report_tool_usage
  nobody_signed_on user_of row seconds sensed busy shop e =
      let a : accepts billing user_of (some row) none seconds shop ≡ false =
        rw (e, accepts, reporter) refl in
      subst
        (λ b. IsOutcome user_of (some row) none seconds sensed busy shop b (
          report_tool_usage round config is_member tier_of reference billing user_of (some row) none
            (seconds, sensed, busy) shop))
        (sym a) (rw (e, report_tool_usage) (refl, (refl, refl, refl)))

  -- A usage report is accepted exactly when the tool is known, there is a member whom the report is about
  -- (the one that its card names, or without a card the one who is signed on), and the tool is not
  -- billed, or the figure is usable and the tool's open session is that member's. A report that is not
  -- accepted changes no status, event or billing row. One that is accepted is logged for that member;
  -- where the tool is billed, its figures are added to the row of the tool's open session, which is
  -- that member's, and the ledger and every row with another key stay: no card makes another member
  -- pay for usage.
  pub report_tool_usage-attributed :
      (user_of : ℕ → Option Member) (lookup : Option ToolRow) (card : Option CardResolution)
      (seconds : Option ℕ) (sensed : Bool) (busy : Option ℕ) (shop : Shop)
      → IsOutcome user_of lookup card seconds sensed busy shop
          (accepts billing user_of lookup card seconds shop)
          (report_tool_usage round config is_member tier_of reference billing user_of lookup card
            (seconds, sensed, busy)
            shop)
  unfolding report_tool_usage
  report_tool_usage-attributed user_of none (some unknown) seconds sensed busy shop =
      (refl, (refl, refl, refl))
  report_tool_usage-attributed user_of (some row) (some unknown) seconds sensed busy shop =
      (refl, (refl, refl, refl))
  report_tool_usage-attributed user_of none none seconds sensed busy shop =
      (refl, (refl, refl, refl))
  report_tool_usage-attributed user_of none (some (active user)) seconds sensed busy shop =
      (refl, (refl, refl, refl))
  report_tool_usage-attributed user_of none (some (revoked user)) seconds sensed busy shop =
      (refl, (refl, refl, refl))
  report_tool_usage-attributed user_of (some row) (some (active user)) seconds sensed busy shop =
      attributed_as user_of (some (active user)) seconds sensed busy shop row user.id _ refl refl
  report_tool_usage-attributed user_of (some row) (some (revoked user)) seconds sensed busy shop =
      attributed_as user_of (some (revoked user)) seconds sensed busy shop row user.id _ refl refl
  report_tool_usage-attributed user_of (some row) none seconds sensed busy shop =
      elim (Option-cases (signed_on_user user_of row shop)) [
        | inl e ↦ nobody_signed_on user_of row seconds sensed busy shop e
        | inr (user, e) ↦
            attributed_as user_of none seconds sensed busy shop row user.id
              (report_tool_usage round config is_member tier_of reference billing user_of (some row)
                none (seconds, sensed, busy) shop)
              (rw (e, reporter) refl) (rw (e, report_tool_usage) refl)
      ]
