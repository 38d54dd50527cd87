-- ===== src/Server/ToolRequests/Refusals.antt =====
-- server/src/api/toolguard.rs, `activate_tool`: what a refused start leaves behind.
use cooperative_systems_spac.Prelude.{
  ℕ, Bool, true, false, Option, none, some, ◌∷◌, String, ◌≡◌, refl, ◌∙◌, ◌⊎◌, inl, inr, arith,
  Bool-cases,
}
use cooperative_systems_spac.Server.Rules.{UuidText, Clockwork}
use cooperative_systems_spac.Server.Access.{ToolFacts}
use cooperative_systems_spac.Server.Billing.{
  Rounding, BillingConfig, Tool, ToolRateTier, Usage, ActivationOutcome, open_session,
}
use cooperative_systems_spac.Server.ToolRequests.{
  Member, CardResolution, active, revoked, unknown, ToolRow, Denial, Shop, is_authorized, is_idle,
  start_tool, is_billed, is_trained, start_if_opened, charge_and_start, activate_tool,
}
use cooperative_systems_spac.Server.ToolRequests.Activation.{
  is_opened, status_case, is_eligible, is_paid,
}

-- No tool has another status, and no event is added.
abbrev pub IsQuiet : Shop → Shop → Type 0
IsQuiet before after = (after.status ≡ before.status) × (after.events ≡ before.events)

start_tool-refused :
    (row : ToolRow) (uid : ℕ) (shop : Shop)
    → is_idle (shop.status row.tool.id) ≡ false
    → (start_tool row uid shop).1
      ≡ (record shop { denials = (some uid, Denial.already_in_use) ∷ shop.denials })
unfolding start_tool
start_tool-refused row uid shop f = rw (f, start_tool) refl

start_tool-starts :
    (row : ToolRow) (uid : ℕ) (shop : Shop)
    → is_authorized (start_tool row uid shop).0 ≡ false
    → is_idle (shop.status row.tool.id) ≡ false
unfolding start_tool
start_tool-starts row uid shop h = elim (Bool-cases (is_idle (shop.status row.tool.id))) [
  | inr f ↦ f
  | inl t ↦ absurd (let g = rw (t, start_tool) at h in cc)
]

module _ (round : Rounding) (config : BillingConfig) (is_member : ℕ → Bool)
    (tier_of : ℕ → ℕ → Option ToolRateTier) (reference : ℕ → String) where
  -- A session that is not opened leaves the tables.
  open_session-denied :
      (uid : ℕ) (tool : Tool) (now id : ℕ) (usage : Usage)
      → is_opened (open_session round config is_member tier_of reference uid tool now id usage).1
        ≡ false
      → (open_session round config is_member tier_of reference uid tool now id usage).0 ≡ usage
  unfolding open_session
  open_session-denied uid tool now id usage h = ground (arith, h)

  -- What a start past the gates before money leaves where it is refused: everything, or the session of
  -- a member who has been let through by money, on a tool that is no longer idle.
  abbrev pub IsLost : Bool → ToolRow → Member → ℕ → ℕ → Shop → Type 0
  IsLost billing row user now id shop =
      (is_billed billing row.tool ≡ true)
      × (is_paid round config is_member tier_of reference billing row user now id shop ≡ true)
      × (is_idle (shop.status row.tool.id) ≡ false)

  start_if_opened-refused :
      (row : ToolRow) (uid : ℕ) (shop : Shop) (opening : Usage × ActivationOutcome)
      → is_authorized (start_if_opened row uid shop opening).0 ≡ false
      → IsQuiet shop (start_if_opened row uid shop opening).1
        × ((start_if_opened row uid shop opening).1.usage ≡ opening.0)
        × ((is_opened opening.1 ≡ false) ⊎ (is_idle (shop.status row.tool.id) ≡ false))
  start_if_opened-refused row uid shop (usage, ActivationOutcome.denied why) h =
      ((refl, refl), refl, inl refl)
  start_if_opened-refused row uid shop (usage, ActivationOutcome.authorized session) h =
      let f = start_tool-starts row uid (record shop { usage = usage }) h in
      rw (start_tool-refused row uid (record shop { usage = usage }) f) ((refl, refl), refl, inr f)

  charge_and_start-refused :
      (billing : Bool) (row : ToolRow) (user : Member) (now id : ℕ) (shop : Shop)
      → let after =
          charge_and_start round config is_member tier_of reference billing row user.id now id
            shop in
        is_authorized after.0 ≡ false
        → IsQuiet shop after.1
          × ((after.1.usage ≡ shop.usage) ⊎ IsLost billing row user now id shop)
  unfolding charge_and_start
  charge_and_start-refused billing row user now id shop h =
      elim (Bool-cases (is_billed billing row.tool)) [
        | inr f ↦
            let g = rw (f, charge_and_start) at h in
            let lost = start_tool-starts row user.id shop g in
            rw (f, charge_and_start, start_tool-refused row user.id shop lost)
              ((refl, refl), inl refl)
        | inl t ↦
            let g = rw (t, charge_and_start) at h in
            let (quiet, spent, why) = start_if_opened-refused row user.id shop _ g in
            rw (t, charge_and_start)
              (
                quiet,
                elim (Bool-cases (
                    is_opened
                      (open_session round config is_member tier_of reference user.id row.tool now id
                        shop.usage).1)) [
                          | inr denied ↦ inl (
                              spent ∙ open_session-denied user.id row.tool now id shop.usage denied)
                          | inl opened ↦
                              let lost : is_idle (shop.status row.tool.id) ≡ false = elim why [
                                | inl n ↦ absurd (ground (arith, n, opened))
                                | inr f ↦ f
                              ] in
                              inr (refl, opened, lost)
                        ],
              )
      ]

module _ {ℓ} {Json : Type ℓ} (uuid : UuidText) (clock : Clockwork Json) (facts : ℕ → ℕ → ToolFacts)
    (round : Rounding) (config : BillingConfig) (is_member : ℕ → Bool)
    (tier_of : ℕ → ℕ → Option ToolRateTier) (reference : ℕ → String) (billing : Bool) where
  -- The race: the tool that a member could start, and has been let through by money for, has another
  -- status than the one that was loaded.
  abbrev pub IsRace : Option ToolRow → CardResolution → ℕ → ℕ → Shop → Type 0
  IsRace (some row) (active user) now id shop =
      (is_eligible uuid clock facts row user ≡ true)
      × IsLost round config is_member tier_of reference billing row user now id shop
  IsRace _ _ now id shop = ⊥

  -- A start that is refused changes no tool's status and adds no event, and leaves the billing tables as
  -- they were, unless the refusal came after money: then every gate was passed on the tool as it was
  -- loaded, a session was opened, and the tool is no longer idle.
  pub activate_tool-refused :
      (lookup : Option ToolRow) (card : CardResolution) (now id : ℕ) (shop : Shop)
      → let after =
          activate_tool uuid clock facts round config is_member tier_of reference billing lookup
            card now id shop in
        is_authorized after.0 ≡ false
        → IsQuiet shop after.1 × ((after.1.usage ≡ shop.usage) ⊎ IsRace lookup card now id shop)
  unfolding activate_tool
  activate_tool-refused none unknown now id shop h = ((refl, refl), inl refl)
  activate_tool-refused (some row) unknown now id shop h = ((refl, refl), inl refl)
  activate_tool-refused none (revoked user) now id shop h = ((refl, refl), inl refl)
  activate_tool-refused (some row) (revoked user) now id shop h = ((refl, refl), inl refl)
  activate_tool-refused none (active user) now id shop h = elim (Bool-cases user.is_active) [
    | inl t ↦ rw (t, activate_tool) ((refl, refl), inl refl)
    | inr f ↦ rw (f, activate_tool) ((refl, refl), inl refl)
  ]
  activate_tool-refused (some row) (active user) now id shop h = elim (Bool-cases user.is_active) [
    | inr f ↦ rw (f, activate_tool) ((refl, refl), inl refl)
    | inl t ↦ elim (status_case row.status) [
      | inr (f, (why, s)) ↦ rw (t, s, activate_tool) ((refl, refl), inl refl)
      | inl (i, s) ↦ elim (Bool-cases (is_trained uuid clock facts user.id row)) [
        | inr f ↦ rw (t, s, f, activate_tool) ((refl, refl), inl refl)
        | inl g ↦
            let refused = rw (t, s, g, activate_tool) at h in
            let (quiet, rest) =
              charge_and_start-refused round config is_member tier_of reference billing row user now
                id shop refused in
            (
              rw (t, s, g, activate_tool) quiet,
              elim rest [
                | inl same ↦ inl (rw (t, s, g, activate_tool) same)
                | inr lost ↦ inr (rw (t, i, g) refl, lost)
              ],
            )
      ]
    ]
  ]
