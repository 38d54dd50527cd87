-- ===== src/Server/ToolRequests/Answers.antt =====
-- server/src/api/toolguard.rs, `report_tool_usage`: what a report of a known member is answered with.
use mathlib.Core.Path.{subst}
use cooperative_systems_spac.Prelude.{
  ℕ, Bool, true, false, not, ◌&&◌, ◌||◌, Option, none, some, ◌∷◌, String, ◌==◌, nat_eq, ==_iff, ◌≡◌,
  refl, ap, sym, ◌∙◌, ◌⊎◌, inl, inr, filter, is_some_and, Bool-cases, Option-cases,
}
use cooperative_systems_spac.Server.Billing.{
  Rounding, BillingConfig, ToolRateTier, ToolUsageSession, Usage, open_tool_session_for_tool,
  record_usage, is_set, update_open, add_reported_seconds, add_reported_active_seconds,
}
use cooperative_systems_spac.Server.ToolRequests.{
  Member, CardResolution, active, revoked, unknown, ToolRow, ToolEvent, Denial, Shop, Reply, note,
  is_billed,
}
use cooperative_systems_spac.Server.ToolRequests.Stopping.{signed_on_user, log_usage, report_as}
use cooperative_systems_spac.Server.Billing.OpenRows.{
  add_reported_seconds-Keeps, add_reported_active_seconds-Keeps, open-update_open,
  others-update_open,
}

abbrev pub is_done : Reply → Bool
is_done Reply.done = true
is_done _ = false

abbrev pub usage_logged : ToolRow → ℕ → ToolEvent
usage_logged row uid = record {
  tool_id = row.tool.id;
  event_type = "usage_logged";
  old_status = none;
  new_status = none;
  user_id = some uid;
}

-- The row of the session with the figures of a report.
abbrev pub with_report : ℕ → Bool → Option ℕ → ToolUsageSession → ToolUsageSession
with_report seconds sensed busy session =
    add_reported_active_seconds busy (add_reported_seconds seconds sensed session)

-- The member a report is about: the one that the card names, or the one who is signed on.
abbrev pub reporter : (ℕ → Option Member) → ToolRow → Option CardResolution → Shop → Option ℕ
reporter user_of row (some unknown) shop = none
reporter user_of row (some (active user)) shop = some user.id
reporter user_of row (some (revoked user)) shop = some user.id
reporter user_of row none shop = elim (signed_on_user user_of row shop) [
  | none ↦ none
  | some user ↦ some user.id
]

-- A member's report about a tool is accepted where the tool is not billed, or its figure is usable and
-- the tool's open session is the member's.
abbrev pub accepts_from : Bool → ToolRow → ℕ → Option ℕ → Shop → Bool
accepts_from billing row uid seconds shop =
    not (is_billed billing row.tool)
    || (is_some_and (λ (s : ToolUsageSession). s.user_id == uid)
          (open_tool_session_for_tool shop.usage.sessions row.tool.id)
        && is_set seconds)

abbrev pub accepts :
    Bool → (ℕ → Option Member) → Option ToolRow → Option CardResolution → Option ℕ → Shop → Bool
accepts billing user_of none card seconds shop = false
accepts billing user_of (some row) card seconds shop = elim (reporter user_of row card shop) [
  | none ↦ false
  | some uid ↦ accepts_from billing row uid seconds shop
]

-- A report that is refused leaves the tables, the events and the statuses.
abbrev pub IsRefused : Shop → Shop → Type 0
IsRefused shop after =
    (after.status ≡ shop.status) × (after.events ≡ shop.events) × (after.usage ≡ shop.usage)

-- The figures go to the row of the tool's open session, which is the member's; the ledger and every
-- row with another key are as they were.
abbrev pub IsBilledTo : ToolRow → ℕ → Option ℕ → Bool → Option ℕ → Shop → Shop → Type 0
IsBilledTo row uid seconds sensed busy shop after =
    (session : ToolUsageSession) × (time : ℕ) × (seconds ≡ some time)
    × (open_tool_session_for_tool shop.usage.sessions row.tool.id ≡ some session)
    × (session.user_id ≡ uid)
    × (open_tool_session_for_tool after.usage.sessions row.tool.id
        ≡ some (with_report time sensed busy session))
    × (filter (λ (s : ToolUsageSession). not (s.id == session.id)) after.usage.sessions
        ≡ filter (λ (s : ToolUsageSession). not (s.id == session.id)) shop.usage.sessions)
    × (after.usage.ledger ≡ shop.usage.ledger)

-- A report that is accepted is logged for one member, and billed to that member where the tool is.
abbrev pub IsLogged : Bool → ToolRow → ℕ → Option ℕ → Bool → Option ℕ → Shop → Shop → Type 0
IsLogged billing row uid seconds sensed busy shop after =
    (after.status ≡ shop.status)
    × (after.events ≡ usage_logged row uid ∷ shop.events)
    × (((is_billed billing row.tool ≡ false) × (after.usage ≡ shop.usage))
        ⊎ IsBilledTo row uid seconds sensed busy shop after)

module _ (round : Rounding) (config : BillingConfig) (is_member : ℕ → Bool)
    (tier_of : ℕ → ℕ → Option ToolRateTier) (reference : ℕ → String) (billing : Bool) where
  module _ (row : ToolRow) (uid : ℕ) (sensed : Bool) (busy : Option ℕ) (shop : Shop) where
    abbrev pub run : Option ℕ → Reply × Shop
    run seconds =
        report_as round config is_member tier_of reference billing row uid (seconds, sensed, busy)
          shop

    -- The shop with the report in the row of the session.
    abbrev recorded : ℕ → ToolUsageSession → Shop
    recorded time session = record shop {
      usage = record {
        ledger = shop.usage.ledger;
        sessions =
            update_open session.id (add_reported_active_seconds busy)
              (update_open session.id (add_reported_seconds time sensed) shop.usage.sessions);
      };
    }

    record_usage-open :
        (time : ℕ) (session : ToolUsageSession)
        → open_tool_session_for_tool shop.usage.sessions row.tool.id ≡ some session
        → record_usage round config is_member tier_of reference row.tool.id
            (some time)
            sensed
            busy
            shop.usage
          ≡ ((recorded time session).usage, true)
    unfolding record_usage
    record_usage-open time session e = rw (e, record_usage) refl

    run-billed :
        (time : ℕ) (session : ToolUsageSession)
        → is_billed billing row.tool ≡ true
        → open_tool_session_for_tool shop.usage.sessions row.tool.id ≡ some session
        → session.user_id == uid ≡ true
        → run (some time) ≡ log_usage row uid (recorded time session)
    unfolding report_as
    run-billed time session t e own =
        rw (t, e, own, report_as)
          (let r = record_usage-open time session e in
            rw r (ap (λ (u : Usage × Bool). log_usage row uid (record shop { usage = u.0 })) r))

    recorded-IsBilledTo :
        (time : ℕ) (session : ToolUsageSession)
        → open_tool_session_for_tool shop.usage.sessions row.tool.id ≡ some session
        → session.user_id == uid ≡ true
        → IsBilledTo row uid
            (some time)
            sensed
            busy
            shop
            (log_usage row uid (recorded time session)).1
    unfolding add_reported_seconds
    recorded-IsBilledTo time session e own =
        let first = add_reported_seconds-Keeps time sensed in
        let second = add_reported_active_seconds-Keeps busy in
        let counted =
          open-update_open (add_reported_seconds time sensed) first row.tool.id shop.usage.sessions
            session e in
        let id_kept : (add_reported_seconds time sensed session).id ≡ session.id =
          (first session).0.0 in
        let between =
          update_open session.id (add_reported_seconds time sensed) shop.usage.sessions in
        let both =
          open-update_open (add_reported_active_seconds busy) second row.tool.id between
            (add_reported_seconds time sensed session) counted in
        (
          session,
          time,
          refl,
          e,
          (==_iff session.user_id uid).0 own,
          rw id_kept at both,
          others-update_open (add_reported_active_seconds busy) second session.id between
              ∙ others-update_open (add_reported_seconds time sensed) first session.id
                  shop.usage.sessions,
          refl,
        )

    -- What an answer must be where the report is accepted, and where it is not.
    abbrev pub IsAnswer : Option ℕ → Bool → Reply × Shop → Type 0
    IsAnswer seconds accepted after = (is_done after.0 ≡ accepted) × elim accepted [
      | false ↦ IsRefused shop after.1
      | true ↦ IsLogged billing row uid seconds sensed busy shop after.1
    ]

    abbrev no_session : Reply × Shop
    no_session =
        (Reply.error "No open session for this tool", note (some uid) Denial.no_open_session shop)

    run-free :
        (seconds : Option ℕ)
        → is_billed billing row.tool ≡ false
        → run seconds ≡ log_usage row uid shop
    unfolding report_as
    run-free seconds free = rw (free, report_as) refl

    record_usage-nobody :
        (time : ℕ)
        → open_tool_session_for_tool shop.usage.sessions row.tool.id ≡ none
        → record_usage round config is_member tier_of reference row.tool.id
            (some time)
            sensed
            busy
            shop.usage
          ≡ (shop.usage, false)
    unfolding record_usage
    record_usage-nobody time e = rw (e, record_usage) refl

    run-nobody :
        (seconds : Option ℕ)
        → is_billed billing row.tool ≡ true
        → open_tool_session_for_tool shop.usage.sessions row.tool.id ≡ none
        → run seconds ≡ no_session
    unfolding report_as
    run-nobody none t e = rw (t, e, report_as) (unfold record_usage in refl)
    run-nobody (some time) t e =
        rw (t, e, report_as)
          (let r = record_usage-nobody time e in
            rw r (
              ap
                (λ (u : Usage × Bool). (
                  Reply.error "No open session for this tool",
                  note (some uid) Denial.no_open_session (record shop { usage = u.0 }),
                ))
                r))

    run-foreign :
        (seconds : Option ℕ) (session : ToolUsageSession)
        → is_billed billing row.tool ≡ true
        → open_tool_session_for_tool shop.usage.sessions row.tool.id ≡ some session
        → session.user_id == uid ≡ false
        → run seconds ≡ (
          Reply.error "This card did not activate the tool",
          note (some uid) Denial.foreign_card shop,
        )
    unfolding report_as
    run-foreign seconds session t e foreign = rw (t, e, foreign, report_as) refl

    run-unusable :
        (session : ToolUsageSession)
        → is_billed billing row.tool ≡ true
        → open_tool_session_for_tool shop.usage.sessions row.tool.id ≡ some session
        → session.user_id == uid ≡ true
        → run none ≡ no_session
    unfolding report_as record_usage
    run-unusable session t e own = rw (t, e, own, report_as, record_usage) refl

    conclude :
        (seconds : Option ℕ) {accepted : Bool} {after : Reply × Shop}
        → run seconds ≡ after
        → accepts_from billing row uid seconds shop ≡ accepted
        → IsAnswer seconds accepted after
        → IsAnswer seconds (accepts_from billing row uid seconds shop) (run seconds)
    conclude seconds {accepted} {after} r a h =
        subst (λ b. IsAnswer seconds b (run seconds)) (sym a)
          (subst (λ x. IsAnswer seconds accepted x) (sym r) h)

    run-own :
        (session : ToolUsageSession)
        → is_billed billing row.tool ≡ true
        → open_tool_session_for_tool shop.usage.sessions row.tool.id ≡ some session
        → session.user_id == uid ≡ true
        → (seconds : Option ℕ)
        → IsAnswer seconds (accepts_from billing row uid seconds shop) (run seconds)
    run-own session t e own none =
        conclude none (run-unusable session t e own) (rw (t, e, own) refl)
          (refl, (refl, refl, refl))
    run-own session t e own (some time) =
        conclude (some time) (run-billed time session t e own) (rw (t, e, own) refl)
          (refl, (refl, refl, inr (recorded-IsBilledTo time session e own)))

    pub run-IsAnswer :
        (seconds : Option ℕ)
        → IsAnswer seconds (accepts_from billing row uid seconds shop) (run seconds)
    run-IsAnswer seconds = elim (Bool-cases (is_billed billing row.tool)) [
      | inr free ↦
          conclude seconds (run-free seconds free) (rw free refl)
            (refl, (refl, refl, inl (free, refl)))
      | inl t ↦ elim (Option-cases (open_tool_session_for_tool shop.usage.sessions row.tool.id)) [
        | inl nobody ↦
            conclude seconds (run-nobody seconds t nobody) (rw (t, nobody) refl)
              (refl, (refl, refl, refl))
        | inr (session, e) ↦ elim (Bool-cases (session.user_id == uid)) [
          | inr foreign ↦
              conclude seconds (run-foreign seconds session t e foreign) (rw (t, e, foreign) refl)
                (refl, (refl, refl, refl))
          | inl own ↦ run-own session t e own seconds
        ]
      ]
    ]
