-- ===== src/Edge/Modules/Examples.antt =====
-- A saw with a relay, an extractor that starts before it, a lid and a meter, as the edge drives them.
use cooperative_systems_spac.Prelude.{
  ◌≡◌, refl, true, false, none, some, List, [], ◌∷◌, String, pos, Any, In, arith, insert, empty_map,
  is_none_or, ◌||◌, ltb, string_eq,
}
use cooperative_systems_spac.CssLib.Wire.{
  DeviceBinding, ToolInterlockRule, ToolModuleTool, ToolModuleStatePayload,
}
use cooperative_systems_spac.Edge.Modules.{
  ModuleState, new, seconds, resolve, wiring_of, tool_key, open_session, close_session, observe,
  note_device_seen, apply_state_at, rooms, reconcile_tracked, in_use, note_module_seen, bindings_of,
}
use cooperative_systems_spac.Edge.Modules.Interlocks.{
  allow, deny, tripped, latched, IsEnergizable, evaluate, evaluate_wiring, evaluate-allow_iff,
  offline_fail_off, check_rules, satisfied, is_safe, is_hazard, is_quiet, refusal,
}
use cooperative_systems_spac.Edge.Modules.Names.{open_session-close_session}
use cooperative_systems_spac.Edge.Modules.Sessions.{close_session-reconcile_tracked}
use cooperative_systems_spac.Edge.Modules.Leases.{renew, record_decision, latches}
use cooperative_systems_spac.Edge.Modules.Latches.{Event, observed, run, step, latched_until_reset}
use cooperative_systems_spac.Edge.Modules.Watchdog.{
  lease, power_bindings, stage_order, is_due, start_base, first_stage, latest_confirmation,
  confirmed_on_at, tick_tool, act, allow_tool, allow_power, sensor_bindings,
}
use cooperative_systems_spac.Edge.Modules.Watchdog.Grants.{IsGrounded, tick_tool-IsGrounded}

abbrev extractor : DeviceBinding
extractor = record {
  id = "b1";
  device_id = "plug-1";
  role = "power";
  name = "extractor";
  on_disconnect = "fail_off";
  start_stage = pos 0;
  start_delay_ms = pos 0;
  run_on_ms = pos 5000;
  pulse_ms = pos 0;
  hold_open_access = true;
}

abbrev blade : DeviceBinding
blade = record extractor {
  id = "b2";
  device_id = "plug-2";
  name = "blade";
  start_stage = pos 1;
  start_delay_ms = pos 2000;
}

abbrev lid : ToolInterlockRule
lid = record {
  id = "r1";
  kind = "trip";
  condition = "lid_open";
  source_module_id = none;
  debounce_ms = pos 100;
  latch = true;
  reset = "operator_ack";
  enforcement = "edge";
}

abbrev saw : ToolModuleTool
saw = record {
  tool_id = "t1";
  external_id = some "saw";
  kind = "tool";
  session_profile = "until_stopped";
  in_use = false;
  modules = blade ∷ extractor ∷ [];
  interlocks = lid ∷ [];
  power_fails_safe = true;
}

abbrev shop : ToolModuleStatePayload
shop = record { as_of = "2026-01-05T10:00:00Z"; tools = saw ∷ [] }

-- Wired, the lid observed shut, both plugs heard from, and a member signed on at second 10.
abbrev ready : ModuleState
ready =
    let wired = apply_state_at shop none (seconds 1) new in
    let shut = observe "t1" "lid_open" false (seconds 5) wired in
    let first = note_device_seen "plug-1" (seconds 9) shut in
    let both = note_device_seen "plug-2" (seconds 9) first.0 in
    open_session "saw" (seconds 10) none both.0

-- The lid opens at second 20.
abbrev opened : ModuleState
opened = observe "t1" "lid_open" true (seconds 20) ready

ready-evaluate : evaluate ready "saw" (seconds 11) (seconds 30) ≡ allow
unfolding apply_state_at observe note_device_seen open_session evaluate evaluate_wiring
    offline_fail_off check_rules satisfied is_safe is_hazard is_quiet in_use resolve tool_key
    wiring_of bindings_of note_module_seen rooms reconcile_tracked refusal
ready-evaluate = refl

evaluate-allow_iff_example : IsEnergizable ready "saw" (seconds 11) (seconds 30)
evaluate-allow_iff_example =
    (evaluate-allow_iff ready "saw" (seconds 11) (seconds 30)).0 ready-evaluate

-- The member stops at second 30; an answer that was asked for at second 29 still lists the saw.
-- Started as "saw", stopped under the server's id.
open_session-close_session_example :
    let running = open_session "saw" (seconds 20) none ready in
    let id = tool_key ready "saw" in
    (in_use running (tool_key running id) (seconds 32)
      ≡ (ready.synced_in_use id || is_none_or (λ end. ltb (seconds 32) end) none))
    × (in_use (close_session id (seconds 30) running) (tool_key running "t1") (seconds 32) ≡ false)
unfolding tool_key wiring_of resolve apply_state_at rooms reconcile_tracked observe note_device_seen
    open_session note_module_seen bindings_of
open_session-close_session_example =
    open_session-close_session ready "saw" "t1" (seconds 20) (seconds 30) (seconds 32) none refl

close_session-reconcile_tracked_example :
    in_use
      (reconcile_tracked
        ("t1" ∷ [])
        ("t1" ∷ [])
        (seconds 31)
        (seconds 29)
        (close_session "saw" (seconds 30) ready))
      (tool_key ready "saw")
      (seconds 32)
    ≡ false
unfolding open_session note_device_seen bindings_of observe apply_state_at
close_session-reconcile_tracked_example =
    close_session-reconcile_tracked ready "saw" (seconds 30) (seconds 31) (seconds 29) (seconds 32)
      ("t1" ∷ []) ("t1" ∷ []) (omega arith) (omega arith)

opened-evaluate : evaluate opened "saw" (seconds 21) (seconds 30) ≡ deny (tripped "lid_open")
unfolding apply_state_at observe note_device_seen open_session evaluate evaluate_wiring
    offline_fail_off check_rules satisfied is_safe is_hazard is_quiet in_use resolve tool_key
    wiring_of bindings_of note_module_seen rooms reconcile_tracked refusal
opened-evaluate = refl

opened-latches : latches opened "saw" "lid_open" ≡ true
unfolding apply_state_at observe note_device_seen open_session evaluate evaluate_wiring
    offline_fail_off check_rules satisfied is_safe is_hazard is_quiet in_use resolve tool_key
    wiring_of bindings_of note_module_seen rooms reconcile_tracked refusal latches
opened-latches = refl

-- The lid is shut again.
abbrev shut_again : List Event
shut_again = observed "t1" "lid_open" false (seconds 22) ∷ []

saw_held :
    wiring_of (run (renew "saw" (seconds 21) (seconds 15) (seconds 30) opened).0 shut_again) "t1"
    ≡ some saw
unfolding apply_state_at observe note_device_seen open_session evaluate evaluate_wiring
    offline_fail_off check_rules satisfied is_safe is_hazard is_quiet in_use resolve tool_key
    wiring_of bindings_of note_module_seen rooms reconcile_tracked refusal run step renew
    record_decision latches
saw_held = refl

saw_key : saw.tool_id ≡ tool_key opened "saw"
unfolding apply_state_at observe note_device_seen open_session evaluate evaluate_wiring
    offline_fail_off check_rules satisfied is_safe is_hazard is_quiet in_use resolve tool_key
    wiring_of bindings_of note_module_seen rooms reconcile_tracked refusal
saw_key = refl

latched_until_reset_example :
    (c : String) × (evaluate
        (run (renew "saw" (seconds 21) (seconds 15) (seconds 30) opened).0 shut_again)
        "t1"
        (seconds 25)
        (seconds 30)
      ≡ deny (latched c))
latched_until_reset_example =
    latched_until_reset opened "saw" "lid_open" (seconds 21) (seconds 15) (seconds 30) shut_again
      "t1" (seconds 25) (seconds 30) saw opened-evaluate opened-latches (refl, tt) saw_held saw_key

-- The extractor's relay was reported closed at second 12; the blade waits two seconds more.
blade_due :
    is_due
      (insert "plug-1" (true, seconds 12) empty_map)
      (power_bindings saw)
      (seconds 11)
      (seconds 14)
      blade
    ≡ true
unfolding is_due start_base first_stage latest_confirmation confirmed_on_at power_bindings
    stage_order
blade_due = refl

first_grant :
    In
      (lease "t1" (seconds 15) "plug-1" none)
      (tick_tool (seconds 11) (seconds 15) (seconds 30) "t1" ready).1
unfolding apply_state_at observe note_device_seen open_session evaluate evaluate_wiring
    offline_fail_off check_rules satisfied is_safe is_hazard is_quiet in_use resolve tool_key
    wiring_of bindings_of note_module_seen rooms reconcile_tracked refusal tick_tool act allow_tool
    allow_power power_bindings sensor_bindings stage_order is_due start_base first_stage
    latest_confirmation confirmed_on_at renew record_decision
first_grant = Any.head refl

tick_tool-IsGrounded_example :
    (w : ToolModuleTool) × (wiring_of ready "t1" ≡ some w)
    × IsGrounded ready w (seconds 11) "plug-1" (evaluate ready "t1" (seconds 11) (seconds 30))
tick_tool-IsGrounded_example =
    tick_tool-IsGrounded ready "t1" (seconds 11) (seconds 15) (seconds 30)
      (lease "t1" (seconds 15) "plug-1" none) first_grant refl
