-- ===== src/Server/ToolRequests/Activation.antt =====
-- server/src/api/toolguard.rs, `activate_tool`: when a start is allowed, and what a refused one leaves.
use cooperative_systems_spac.Prelude.{
  ℕ, Bool, true, false, not, ◌&&◌, ◌||◌, Option, none, some, String, ◌≡◌, refl, ◌⊎◌, inl, inr,
  arith, Bool-cases,
}
use cooperative_systems_spac.Server.Rules.{UuidText, Clockwork}
use cooperative_systems_spac.Server.Access.{ToolFacts}
use cooperative_systems_spac.Server.Billing.{
  Rounding, BillingConfig, ToolRateTier, Usage, ActivationOutcome, open_session,
}
use cooperative_systems_spac.Server.Sweep.{
  ToolStatus, idle, in_use, maintenance, broken, repair, retired,
}
use cooperative_systems_spac.Server.ToolRequests.{
  Member, CardResolution, active, revoked, unknown, ToolRow, Denial, Shop, Reply, is_authorized,
  is_idle, status_denial, start_tool, is_billed, is_trained, start_if_opened, charge_and_start,
  activate_tool,
}

abbrev pub is_opened : ActivationOutcome → Bool
is_opened (ActivationOutcome.authorized session) = true
is_opened (ActivationOutcome.denied why) = false

-- The loaded status and `status_denial` agree.
pub status_case :
    (s : ToolStatus)
    → ((is_idle s ≡ true) × (status_denial s ≡ none))
      ⊎ ((is_idle s ≡ false) × ((why : Denial) × (status_denial s ≡ some why)))
unfolding status_denial
status_case idle = inl (refl, refl)
status_case in_use = inr (refl, (Denial.already_in_use, refl))
status_case maintenance = inr (refl, (Denial.under_maintenance, refl))
status_case broken = inr (refl, (Denial.tool_broken, refl))
status_case repair = inr (refl, (Denial.in_repair, refl))
status_case retired = inr (refl, (Denial.tool_retired, refl))

start_tool-authorized :
    (row : ToolRow) (uid : ℕ) (shop : Shop)
    → is_authorized (start_tool row uid shop).0 ≡ is_idle (shop.status row.tool.id)
unfolding start_tool
start_tool-authorized row uid shop = elim (Bool-cases (is_idle (shop.status row.tool.id))) [
  | inl t ↦ rw (t, start_tool) refl
  | inr f ↦ rw (f, start_tool) refl
]

start_if_opened-authorized :
    (row : ToolRow) (uid : ℕ) (shop : Shop) (opening : Usage × ActivationOutcome)
    → is_authorized (start_if_opened row uid shop opening).0
      ≡ (is_opened opening.1 && is_idle (shop.status row.tool.id))
start_if_opened-authorized row uid shop (usage, ActivationOutcome.denied why) = refl
start_if_opened-authorized row uid shop (usage, ActivationOutcome.authorized session) =
    start_tool-authorized row uid (record shop { usage = usage })

module _ {ℓ} {Json : Type ℓ} (uuid : UuidText) (clock : Clockwork Json)
    (facts : ℕ → ℕ → ToolFacts) where
  -- The gates before money: the member, the tool's status as it was loaded, the training.
  abbrev pub is_eligible : ToolRow → Member → Bool
  is_eligible row user =
      user.is_active && is_idle row.status && is_trained uuid clock facts user.id row

module _ (round : Rounding) (config : BillingConfig) (is_member : ℕ → Bool)
    (tier_of : ℕ → ℕ → Option ToolRateTier) (reference : ℕ → String) (billing : Bool) where
  -- Money: the tool is not billed, or a session is opened.
  abbrev pub is_paid : ToolRow → Member → ℕ → ℕ → Shop → Bool
  is_paid row user now id shop =
      not (is_billed billing row.tool)
      || is_opened
          (open_session round config is_member tier_of reference user.id row.tool now id
            shop.usage).1

module _ {ℓ} {Json : Type ℓ} (uuid : UuidText) (clock : Clockwork Json) (facts : ℕ → ℕ → ToolFacts)
    (round : Rounding) (config : BillingConfig) (is_member : ℕ → Bool)
    (tier_of : ℕ → ℕ → Option ToolRateTier) (reference : ℕ → String) (billing : Bool) where
  -- The rule of a start.
  abbrev pub may_start : Option ToolRow → CardResolution → ℕ → ℕ → Shop → Bool
  may_start (some row) (active user) now id shop =
      is_eligible uuid clock facts row user
      && is_paid round config is_member tier_of reference billing row user now id shop
      && is_idle (shop.status row.tool.id)
  may_start _ _ now id shop = false

  abbrev starting : Option ToolRow → CardResolution → ℕ → ℕ → Shop → Reply × Shop
  starting lookup card now id shop =
      activate_tool uuid clock facts round config is_member tier_of reference billing lookup card
        now id shop

  charge_and_start-authorized :
      (row : ToolRow) (user : Member) (now id : ℕ) (shop : Shop)
      → is_authorized
          (charge_and_start round config is_member tier_of reference billing row user.id now id
            shop).0
        ≡ (is_paid round config is_member tier_of reference billing row user now id shop
            && is_idle (shop.status row.tool.id))
  unfolding charge_and_start
  charge_and_start-authorized row user now id shop =
      elim (Bool-cases (is_billed billing row.tool)) [
        | inr f ↦ rw (f, charge_and_start) (start_tool-authorized row user.id shop)
        | inl t ↦ rw (t, charge_and_start) (start_if_opened-authorized row user.id shop _)
      ]

  -- A start is allowed exactly to an active card of an active member on a known tool that is idle, both
  -- as it was loaded and as it is now, for which the member is trained, and, where it is billed, once
  -- a session has been opened.
  pub activate_tool-may_start :
      (lookup : Option ToolRow) (card : CardResolution) (now id : ℕ) (shop : Shop)
      → is_authorized (starting lookup card now id shop).0 ≡ may_start lookup card now id shop
  unfolding activate_tool
  activate_tool-may_start none unknown now id shop = refl
  activate_tool-may_start (some row) unknown now id shop = refl
  activate_tool-may_start none (revoked user) now id shop = refl
  activate_tool-may_start (some row) (revoked user) now id shop = refl
  activate_tool-may_start none (active user) now id shop = ground arith
  activate_tool-may_start (some row) (active user) now id shop = elim (Bool-cases user.is_active) [
    | inr f ↦ rw (f, activate_tool) refl
    | inl t ↦ elim (status_case row.status) [
      | inr (f, (why, s)) ↦ rw (t, f, s, activate_tool) refl
      | inl (i, s) ↦ elim (Bool-cases (is_trained uuid clock facts user.id row)) [
        | inr f ↦ rw (t, i, s, f, activate_tool) refl
        | inl g ↦ rw (t, i, s, g, activate_tool) (charge_and_start-authorized row user now id shop)
      ]
    ]
  ]
