-- ===== src/Edge/ToolGuard.antt =====
-- edge/src/toolguard.rs: the cached allow-list of the tools, and what a badge may start while the
-- server is out of reach. The channels that tell others of a new payload are left out; equality in
-- constant time is equality.
mod Decisions
mod Examples
use cooperative_systems_spac.Prelude.{
  ℕ, Bool, true, false, ◌&&◌, ◌||◌, not, Option, none, some, List, [], ◌∷◌, String, ◌≡◌, nat_eq,
  string_eq, ◌==◌, if◌then◌else◌, find, contains, is_some_and, unwrap_or,
}
use cooperative_systems_spac.Edge.Resources.{Outside}

pub data ToolStatus : Type 0 where
  idle : ToolStatus
  in_use : ToolStatus
  maintenance : ToolStatus
  broken : ToolStatus
  repair : ToolStatus
  retired : ToolStatus

-- `status == ToolStatus::Idle`
abbrev pub is_idle : ToolStatus → Bool
is_idle idle = true
is_idle _ = false

-- `format!("{:?}", status).to_lowercase()`
abbrev pub status_text : ToolStatus → String
status_text idle = "idle"
status_text in_use = "inuse"
status_text maintenance = "maintenance"
status_text broken = "broken"
status_text repair = "repair"
status_text retired = "retired"

pub record SyncTool : Type 0 where
  pub id : ℕ
  pub external_id : Option String
  pub name : String
  pub status : ToolStatus
  pub requires_online : Bool

pub record SyncUser : Type 0 where
  pub profile_field_digest : String
  pub full_name : String
  pub is_active : Bool
  pub authorized_tool_ids : List ℕ

pub record SyncPayload : Type 0 where
  pub device_id : ℕ
  pub profile_field : String
  pub tools : List SyncTool
  pub users : List SyncUser

pub data AccessResult : Type 0 where
  authorized : AccessResult
  unknown_card : AccessResult
  user_inactive : AccessResult
  tool_not_authorized : AccessResult
  tool_unavailable : String → AccessResult

-- `inner`: the last payload. A digester that is not there, or fails, has no digest
-- (`Outside.wire_digest_hex`).
pub record ToolGuardState : Type 0 where
  pub inner : Option SyncPayload

unfoldable pub apply_sync : SyncPayload → ToolGuardState → ToolGuardState
apply_sync payload state = record { inner = some payload }

abbrev pub has_state : ToolGuardState → Bool
has_state state = is_some_and (λ _. true) state.inner

module _ (outside : Outside) where
  unfoldable pub find_tool : SyncPayload → String → Option SyncTool
  find_tool payload tool_id =
      find
        (λ (t : SyncTool).
          is_some_and (λ x. x == tool_id) t.external_id || outside.uuid_text t.id == tool_id)
        payload.tools

  unfoldable pub find_user : SyncPayload → String → Option SyncUser
  find_user payload presented =
      find (λ (u : SyncUser). u.profile_field_digest == presented) payload.users

  -- A known user at a tool.
  unfoldable pub check_tool : SyncUser → Option SyncTool → AccessResult
  check_tool user none = tool_not_authorized
  check_tool user (some tool) =
      if not (contains user.authorized_tool_ids tool.id)
      then tool_not_authorized
      else if not (is_idle tool.status)
      then tool_unavailable (status_text tool.status)
      else authorized

  unfoldable pub check_user : SyncPayload → Option SyncUser → String → AccessResult
  unfolding check_tool
  check_user payload none tool_id = unknown_card
  check_user payload (some user) tool_id =
      if not user.is_active then user_inactive else check_tool user (find_tool payload tool_id)

  unfoldable pub check_access : ToolGuardState → String → String → AccessResult
  unfolding check_user
  check_access state card_value tool_id = elim (state.inner) [
    | none ↦ unknown_card
    | some payload ↦ elim (outside.wire_digest_hex card_value) [
      | none ↦ unknown_card
      | some presented ↦ check_user payload (find_user payload presented) tool_id
    ]
  ]

  unfoldable pub tool_uuid : ToolGuardState → String → Option ℕ
  tool_uuid state tool_id = elim (state.inner) [
    | none ↦ none
    | some payload ↦ elim (find_tool payload tool_id) [ none ↦ none | some t ↦ some t.id ]
  ]

  unfoldable pub tool_requires_online : ToolGuardState → String → Bool
  tool_requires_online state tool_id = elim (state.inner) [
    | none ↦ false
    | some payload ↦ elim (find_tool payload tool_id) [ none ↦ false | some t ↦ t.requires_online ]
  ]
