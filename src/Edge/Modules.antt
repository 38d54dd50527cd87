-- ===== src/Edge/Modules.antt =====
-- edge/src/modules.rs, `ModuleState`: its state, sessions, readings and liveness. The decision is in
-- the child Interlocks, the lease in Leases, the watchdog's pass in Watchdog.
pub mod Interlocks
pub mod Names
pub mod Sessions
pub mod Leases
pub mod Latches
pub mod Watchdog
mod Examples
use cooperative_systems_spac.Prelude.{
  ℕ, ◌+◌, ◌*◌, Bool, true, false, ◌&&◌, ◌||◌, not, Option, none, some, List, [], ◌∷◌, map, String,
  ltb, leb, if◌then◌else◌, ◌==◌, string_eq, pair_eq, Map, empty_map, insert, remove, retain,
  is_some, is_some_and, is_none_or, or_else, unwrap_or, filter, find, contains, length, flatten,
}
use mathlib.Core.List.{foldl}
use cooperative_systems_spac.CssLib.Wire.{
  DeviceBinding, ToolInterlockRule, ToolModuleTool, ToolModuleStatePayload,
}

-- `Duration::milliseconds`
abbrev pub millis : ℕ → ℕ
millis n = n * 1000000

abbrev pub seconds : ℕ → ℕ
seconds n = n * 1000000000

-- A session that this edge opened: `ends_at` is the end of the pulse of a momentary resource.
pub record Session : Type 0 where
  pub opened : ℕ
  pub ends_at : Option ℕ

-- The latest reading of a condition, and when its value last changed.
pub record Reading : Type 0 where
  pub asserted : Bool
  pub since : ℕ

-- `Inner`, behind the lock. A HashSet is a test.
pub record ModuleState : Type 0 where
  pub snapshot : Option ToolModuleStatePayload
  pub readings : Map (String × String) Reading
  pub latched : Map String String
  pub leases : Map String ℕ
  pub module_seen : Map String ℕ
  pub local_sessions : Map String Session
  pub synced_in_use : String → Bool
  pub local_session_grace : ℕ
  pub local_stops : Map String ℕ
  pub allowed_since : Map String ℕ
  pub relay_state : Map String (Bool × ℕ)
  pub granted_since : Map String ℕ
  pub run_on_until : Map String ℕ

abbrev pub new : ModuleState
new = record {
  snapshot = none;
  readings = empty_map;
  latched = empty_map;
  leases = empty_map;
  module_seen = empty_map;
  local_sessions = empty_map;
  synced_in_use = λ _. false;
  local_session_grace = seconds 30;
  local_stops = empty_map;
  allowed_since = empty_map;
  relay_state = empty_map;
  granted_since = empty_map;
  run_on_until = empty_map;
}

abbrev pub set_local_session_grace : ℕ → ModuleState → ModuleState
set_local_session_grace grace s = record s { local_session_grace = grace }

-- By the server's id first, then by the external id.
unfoldable pub resolve : ToolModuleStatePayload → String → Option ToolModuleTool
resolve snapshot tool =
    or_else (find (λ (t : ToolModuleTool). t.tool_id == tool) snapshot.tools)
      (find (λ (t : ToolModuleTool). is_some_and (λ e. e == tool) t.external_id) snapshot.tools)

unfoldable pub wiring_of : ModuleState → String → Option ToolModuleTool
wiring_of s tool = elim s.snapshot [ none ↦ none | some p ↦ resolve p tool ]

-- The name itself where no wiring is held for it.
unfoldable pub tool_key : ModuleState → String → String
tool_key s tool = elim (wiring_of s tool) [ none ↦ tool | some t ↦ t.tool_id ]

unfoldable pub open_session : String → ℕ → Option ℕ → ModuleState → ModuleState
open_session resource now ends_at s =
    let key = tool_key s resource in
    record s {
      local_stops = remove key s.local_stops;
      local_sessions = insert key (record { opened = now; ends_at = ends_at }) s.local_sessions;
    }

unfoldable pub close_session : String → ℕ → ModuleState → ModuleState
close_session resource now s =
    let key = tool_key s resource in
    record s {
      local_sessions = remove key s.local_sessions;
      synced_in_use = λ k. not (key == k) && s.synced_in_use k;
      local_stops = insert key now s.local_stops;
    }

unfoldable pub note_session : String → Bool → ℕ → ModuleState → ModuleState
unfolding open_session close_session
note_session tool opens now s =
    if opens then open_session tool now none s else close_session tool now s

-- Whether a stop is newer than the request of the answer.
abbrev pub stopped_after : Map String ℕ → ℕ → String → Bool
stopped_after stops as_of key = is_some_and (λ at. ltb as_of at) (stops key)

-- `local_sessions.retain`
abbrev pub keep_session : List String → List String → ℕ → ℕ → String → Session → Bool
keep_session synced tracked now grace key session =
    if is_some_and (λ end. leb end now) session.ends_at
    then false
    else not (contains tracked key) || contains synced key || ltb now (session.opened + grace)

unfoldable pub reconcile_tracked : List String → List String → ℕ → ℕ → ModuleState → ModuleState
reconcile_tracked in_use_ids tracked_ids now as_of s =
    let grace = s.local_session_grace in
    let stops = retain (λ _ at. ltb now (at + grace)) s.local_stops in
    let synced =
      filter (λ key. not (stopped_after stops as_of key)) (map (tool_key s) in_use_ids) in
    let tracked = map (tool_key s) tracked_ids in
    record s {
      local_stops = stops;
      local_sessions = retain (keep_session synced tracked now grace) s.local_sessions;
      synced_in_use =
          λ key. (s.synced_in_use key && not (contains tracked key)) || contains synced key;
    }

abbrev pub reconcile_sessions : List String → List String → ℕ → ℕ → ModuleState → ModuleState
reconcile_sessions = reconcile_tracked

-- The rooms: doors whose session lasts until a stop.
abbrev pub is_room : ToolModuleTool → Bool
is_room t = (t.kind == "door") && (t.session_profile == "until_stopped")

unfoldable pub rooms : ToolModuleStatePayload → Bool → List String
rooms payload only_in_use =
    map (λ (t : ToolModuleTool). t.tool_id)
      (filter (λ (t : ToolModuleTool). not only_in_use || t.in_use) (filter is_room payload.tools))

unfoldable pub apply_state_at : ToolModuleStatePayload → Option ℕ → ℕ → ModuleState → ModuleState
unfolding rooms reconcile_tracked
apply_state_at payload requested_at now s =
    reconcile_tracked (rooms payload true) (rooms payload false) now (unwrap_or now requested_at)
      (record s { snapshot = some payload })

abbrev pub note_relay_state : String → Bool → ℕ → ModuleState → ModuleState
note_relay_state device_id relay_on now s = record s {
  relay_state = insert device_id (relay_on, now) s.relay_state;
}

-- A session that has not ended, the server's or this edge's own.
unfoldable pub in_use : ModuleState → String → ℕ → Bool
in_use s key now =
    s.synced_in_use key
    || is_some_and (λ (x : Session). is_none_or (λ end. ltb now end) x.ends_at)
        (s.local_sessions key)

-- `since` moves only when the value changes.
unfoldable pub observe : String → String → Bool → ℕ → ModuleState → ModuleState
observe tool_id condition asserted now s =
    let key : String × String = (tool_id, condition) in
    let reading : Reading = record { asserted = asserted; since = now } in
    let written : ModuleState = record s { readings = insert key reading s.readings } in
    elim (s.readings key) [
      | none ↦ written
      | some prev ↦
          if (prev.asserted && asserted) || (not prev.asserted && not asserted) then s else written
    ]

unfoldable pub note_module_seen : String → ℕ → ModuleState → ModuleState
note_module_seen module_id now s = record s { module_seen = insert module_id now s.module_seen }

-- The bindings that a device holds, over all tools.
unfoldable pub bindings_of : ModuleState → String → List String
bindings_of s device_id = elim s.snapshot [
  | none ↦ []
  | some p ↦
      map (λ (m : DeviceBinding). m.id)
        (filter (λ (m : DeviceBinding). m.device_id == device_id)
          (flatten (map (λ (t : ToolModuleTool). t.modules) p.tools)))
]

-- With the number of bindings that are marked.
unfoldable pub note_device_seen : String → ℕ → ModuleState → ModuleState × ℕ
unfolding note_module_seen
note_device_seen device_id now s =
    let ids = bindings_of s device_id in
    (foldl (λ x id. note_module_seen id now x) s ids, length ids)

unfoldable pub reset_latch : String → ModuleState → ModuleState
reset_latch tool_id s = record s { latched = remove tool_id s.latched }

abbrev pub is_latched : ModuleState → String → Bool
is_latched s tool_id = is_some (s.latched tool_id)
