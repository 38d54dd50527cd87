-- ===== src/Server/Sweep.antt =====
-- server/src/session_sweep.rs: the sweep of tools and rooms that nobody stopped. Audit rows, notes and
-- failures of the database are left out; `Utc::now()` is one instant a pass.
mod Releases
mod Examples
use cooperative_systems_spac.Prelude.{
  ℕ, suc, ◌+◌, ◌*◌, Bool, true, false, ◌&&◌, not, Option, none, some, List, [], ◌∷◌, String, Map,
  insert, is_some_and, unwrap_or, nat_eq, string_eq, ◌==◌, if◌then◌else◌, any, filter, contains,
  map, ltb,
}
use cooperative_systems_spac.Server.Billing.{
  Rounding, BillingConfig, Tool, ToolRateTier, Usage, abandoned, is_set, max_minutes, is_abandoned,
  settle_open_session_for_tool, sweep_abandoned,
}

pub data ToolStatus : Type 0 where
  idle : ToolStatus
  in_use : ToolStatus
  maintenance : ToolStatus
  broken : ToolStatus
  repair : ToolStatus
  retired : ToolStatus

abbrev pub is_in_use : ToolStatus → Bool
is_in_use in_use = true
is_in_use _ = false

pub record ResourceSession : Type 0 where
  pub id : ℕ
  pub resource_id : ℕ
  pub opened_at : ℕ
  pub closed_at : Option ℕ
  pub closed_by : Option String

-- The event that a release leaves: the tool, the member of its last activation, and the status.
pub record ToolEvent : Type 0 where
  pub tool_id : ℕ
  pub user_id : Option ℕ
  pub new_status : ToolStatus

-- What the sweep writes: the tools' statuses, the billing tables, the sessions of resources, and the
-- tools' events.
pub record Floor : Type 0 where
  pub status : ℕ → ToolStatus
  pub usage : Usage
  pub rooms : List ResourceSession
  pub events : List ToolEvent

-- `open_resource_sessions`' filter
abbrev pub is_unclosed : ResourceSession → Bool
is_unclosed s = not (is_set s.closed_at)

unfoldable pub rooms_to_release :
    List ResourceSession → List (ℕ × String) → (ℕ → Bool) → List ResourceSession
rooms_to_release opened kinds before_cutoff =
    filter
      (λ (s : ResourceSession).
        any (λ (k : ℕ × String). k.1 == "door" && k.0 == s.resource_id) kinds
        && before_cutoff s.opened_at)
      opened

-- `UPDATE ... WHERE resource_id = ... AND closed_at IS NULL`
unfoldable pub close_resource_session :
    ℕ → String → ℕ → List ResourceSession → List ResourceSession × Bool
close_resource_session resource_id by now [] = ([], false)
close_resource_session resource_id by now (s ∷ rooms) =
    let rest = close_resource_session resource_id by now rooms in
    if s.resource_id == resource_id && is_unclosed s
    then (record s { closed_at = some now; closed_by = some by } ∷ rest.0, true)
    else (s ∷ rest.0, rest.1)

unfoldable pub sweep_rooms :
    ℕ → List ResourceSession → List ResourceSession → List ResourceSession × ℕ
unfolding close_resource_session
sweep_rooms now [] rooms = (rooms, 0)
sweep_rooms now (s ∷ old) rooms =
    let (next, closed) = close_resource_session s.resource_id "sweep" now rooms in
    let rest = sweep_rooms now old next in (rest.0, if closed then suc rest.1 else rest.1)

module _ (round : Rounding) (config : BillingConfig) (is_member : ℕ → Bool)
    (tier_of : ℕ → ℕ → Option ToolRateTier) (reference : ℕ → String) (billing : Bool)
    (grace now : ℕ) (updated_at : ℕ → ℕ) (latest_activation : ℕ → Option (ℕ × Option ℕ)) where
  abbrev pub since : Tool → ℕ
  since tool = elim (latest_activation tool.id) [ none ↦ updated_at tool.id | some a ↦ a.0 ]

  -- `since < abandoned_cutoff(cap, grace, now)`
  abbrev pub is_overdue : Tool → Bool
  is_overdue tool = is_abandoned (max_minutes config tool) grace now (since tool)

  unfoldable pub release : Tool → Floor → Floor
  release tool f = record {
    status = λ id. if id == tool.id then idle else f.status id;
    usage = elim billing [
      | true ↦
          (settle_open_session_for_tool round config is_member tier_of reference tool abandoned now
            f.usage).0
      | false ↦ f.usage
    ];
    rooms = f.rooms;
    events =
        record {
          tool_id = tool.id;
          user_id = elim (latest_activation tool.id) [ none ↦ none | some a ↦ a.1 ];
          new_status = idle;
        }
        ∷ f.events;
  }

  -- The loop over the tools in use.
  unfoldable pub sweep_tools : List Tool → Floor → Floor × ℕ
  unfolding release
  sweep_tools [] f = (f, 0)
  sweep_tools (tool ∷ tools) f = elim (is_overdue tool) [
    | false ↦ sweep_tools tools f
    | true ↦ let rest = sweep_tools tools (release tool f) in (rest.0, suc rest.1)
  ]

  unfoldable pub get_inuse_tools : List Tool → Floor → List Tool
  get_inuse_tools tools f = filter (λ (t : Tool). is_in_use (f.status t.id)) tools

  unfoldable pub sweep_once : List Tool → (ℕ → Option Tool) → List (ℕ × String) → Floor → Floor × ℕ
  unfolding sweep_tools get_inuse_tools sweep_rooms rooms_to_release
  sweep_once tools tool_of kinds f =
      let (swept, released) = sweep_tools (get_inuse_tools tools f) f in
      let old =
        rooms_to_release (filter is_unclosed swept.rooms) kinds
          (λ opened_at. is_abandoned config.default_max_session_minutes grace now opened_at) in
      let (rooms, closed) = sweep_rooms now old swept.rooms in
      (
        record {
          status = swept.status;
          usage =
              (sweep_abandoned round config is_member tier_of reference tool_of billing grace now
                swept.usage).0;
          rooms = rooms;
          events = swept.events;
        },
        released + closed,
      )
