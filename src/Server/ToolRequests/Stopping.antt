-- ===== src/Server/ToolRequests/Stopping.antt =====
-- server/src/api/toolguard.rs: a stop and a usage report of a tool, and the reset when an edge boots.
use cooperative_systems_spac.Prelude.{
  ℕ, Bool, true, false, not, ◌&&◌, Option, none, some, List, [], ◌∷◌, String, ◌==◌, string_eq,
  nat_eq, find, filter, map,
}
use cooperative_systems_spac.Server.Billing.{
  Rounding, BillingConfig, Tool, ToolRateTier, ToolUsageSession, Usage, SessionStatus,
  open_tool_session_for_tool, record_usage, settle_open_session_for_tool,
}
use cooperative_systems_spac.Server.Sweep.{idle, is_in_use}
use cooperative_systems_spac.Server.ToolRequests.{
  Member, CardResolution, active, revoked, unknown, ToolRow, ToolEvent, Denial, Shop, Reply, note,
  set_status, is_billed,
}

-- `latest_activation`
abbrev pub latest_activation : ℕ → List ToolEvent → Option ToolEvent
latest_activation tool_id events =
    find (λ (e : ToolEvent). e.tool_id == tool_id && e.event_type == "activated") events

module _ (user_of : ℕ → Option Member) where
  unfoldable pub signed_on_user : ToolRow → Shop → Option Member
  signed_on_user row shop = elim (open_tool_session_for_tool shop.usage.sessions row.tool.id) [
    | some session ↦ user_of session.user_id
    | none ↦ elim (is_in_use row.status) [
      | false ↦ none
      | true ↦ elim (latest_activation row.tool.id shop.events) [
        | none ↦ none
        | some e ↦ elim e.user_id [ none ↦ none | some uid ↦ user_of uid ]
      ]
    ]
  ]

abbrev pub log_usage : ToolRow → ℕ → Shop → Reply × Shop
log_usage row uid shop = (
  Reply.done,
  record shop {
    events =
        record {
          tool_id = row.tool.id;
          event_type = "usage_logged";
          old_status = none;
          new_status = none;
          user_id = some uid;
        }
        ∷ shop.events;
  },
)

-- The open session is somebody else's.
abbrev pub is_foreign : ℕ → Option ToolUsageSession → Bool
is_foreign uid none = false
is_foreign uid (some session) = not (session.user_id == uid)

module _ (round : Rounding) (config : BillingConfig) (is_member : ℕ → Bool)
    (tier_of : ℕ → ℕ → Option ToolRateTier) (reference : ℕ → String) (billing : Bool) where
  -- `settle_open_session_for_tool`, where billing is on and the tool has a rate.
  abbrev pub settle_if_billed : Tool → SessionStatus → ℕ → Usage → Usage
  settle_if_billed tool status now usage = elim (is_billed billing tool) [
    | false ↦ usage
    | true ↦
        (settle_open_session_for_tool round config is_member tier_of reference tool status now
          usage).0
  ]

  -- The tool back to idle, its session settled, and the event.
  unfoldable pub release_tool : ToolRow → SessionStatus → Option ℕ → ℕ → Shop → Shop
  release_tool row how who now shop = record shop {
    status = set_status row.tool.id idle shop.status;
    usage = settle_if_billed row.tool how now shop.usage;
    events =
        record {
          tool_id = row.tool.id;
          event_type = "deactivated";
          old_status = some row.status;
          new_status = some idle;
          user_id = who;
        }
        ∷ shop.events;
  }

  unfoldable pub report_as : ToolRow → ℕ → Option ℕ × Bool × Option ℕ → Shop → Reply × Shop
  report_as row uid (seconds, sensed, busy) shop = elim (is_billed billing row.tool) [
    | false ↦ log_usage row uid shop
    | true ↦ elim (is_foreign uid (open_tool_session_for_tool shop.usage.sessions row.tool.id)) [
      | true ↦ (
        Reply.error "This card did not activate the tool",
        note (some uid) Denial.foreign_card shop,
      )
      | false ↦
          let (usage, applied) =
            record_usage round config is_member tier_of reference row.tool.id seconds sensed busy
              shop.usage in
          elim applied [
            | false ↦ (
              Reply.error "No open session for this tool",
              note (some uid) Denial.no_open_session (record shop { usage = usage }),
            )
            | true ↦ log_usage row uid (record shop { usage = usage })
          ]
    ]
  ]

  module _ (user_of : ℕ → Option Member) where
    -- Who is recorded as stopping the tool.
    abbrev pub stopper : Option Member → ToolRow → Shop → Option ℕ
    stopper (some user) row shop = some user.id
    stopper none row shop = elim (signed_on_user user_of row shop) [
      | none ↦ none
      | some user ↦ some user.id
    ]

    abbrev pub stop_tool : Option ToolRow → Option Member → ℕ → Shop → Reply × Shop
    stop_tool none user now shop = (Reply.error "Tool not found", shop)
    stop_tool (some row) user now shop =
        (Reply.done, release_tool row SessionStatus.settled (stopper user row shop) now shop)

    unfoldable pub deactivate_tool :
        Option ToolRow → Option CardResolution → ℕ → Shop → Reply × Shop
    unfolding release_tool signed_on_user
    deactivate_tool lookup (some unknown) now shop = (Reply.error "Unknown card", shop)
    deactivate_tool lookup (some (active user)) now shop = stop_tool lookup (some user) now shop
    deactivate_tool lookup (some (revoked user)) now shop = stop_tool lookup (some user) now shop
    deactivate_tool lookup none now shop = stop_tool lookup none now shop

    unfoldable pub report_tool_usage :
        Option ToolRow → Option CardResolution → Option ℕ × Bool × Option ℕ → Shop → Reply × Shop
    unfolding report_as signed_on_user
    report_tool_usage lookup (some unknown) figures shop = (Reply.error "Unknown card", shop)
    report_tool_usage none card figures shop = (Reply.error "Tool not found", shop)
    report_tool_usage (some row) (some (active user)) figures shop =
        report_as row user.id figures shop
    report_tool_usage (some row) (some (revoked user)) figures shop =
        report_as row user.id figures shop
    report_tool_usage (some row) none figures shop = elim (signed_on_user user_of row shop) [
      | none ↦ (Reply.error "No open session for this tool", note none Denial.nobody_signed_on shop)
      | some user ↦ report_as row user.id figures shop
    ]

  abbrev pub reset_all : List ToolRow → ℕ → Shop → Shop
  reset_all [] now shop = shop
  reset_all (row ∷ rows) now shop =
      reset_all rows now (release_tool row SessionStatus.abandoned none now shop)

  -- `get_inuse_tools`, with the rows as they are now, and the loop over them: whichever device asks,
  -- the tools of every device.
  unfoldable pub boot_reset : List ToolRow → ℕ → Shop → Shop
  unfolding release_tool
  boot_reset rows now shop =
      reset_all
        (filter (λ (row : ToolRow). is_in_use row.status)
          (map (λ (row : ToolRow). record row { status = shop.status row.tool.id }) rows))
        now shop
