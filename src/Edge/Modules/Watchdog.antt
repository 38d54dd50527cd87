-- ===== src/Edge/Modules/Watchdog.antt =====
-- edge/src/modules.rs: one pass of the watchdog (`tick`), with start stages, delays and run-on.
pub mod Stages
pub mod Actions
pub mod Grants
use cooperative_systems_spac.Prelude.{
  ℕ, ◌+◌, ◌/◌, Bool, true, false, ◌&&◌, ◌||◌, not, Option, none, some, List, [], ◌∷◌, ◌++◌, map,
  String, ltb, leb, max, if◌then◌else◌, ◌==◌, string_eq, Map, insert, remove, or_insert, is_some,
  is_some_and, unwrap_or, filter, ℤ, pos, pos_part, leb_ℤ, ltb_ℤ, leb_text, sort_by,
}
use mathlib.Core.List.{foldl}
use cooperative_systems_spac.CssLib.Wire.{DeviceBinding, ToolModuleTool}
use cooperative_systems_spac.Edge.Modules.{ModuleState, millis, wiring_of}
use cooperative_systems_spac.Edge.Modules.Interlocks.{Denial, Decision, allow, deny}
use cooperative_systems_spac.Edge.Modules.Leases.{renew, tools}

-- What is sent to a module; the reason, which the source prints for the log, is the denial.
pub record LeaseAction : Type 0 where
  pub tool_id : String
  pub device_id : String
  pub grant : Bool
  pub ttl_ms : ℕ
  pub reason : Option Denial

-- `num_milliseconds`
abbrev pub ttl_millis : ℕ → ℕ
ttl_millis ttl = ttl / 1000000

abbrev pub lease : String → ℕ → String → Option Denial → LeaseAction
lease tool ttl device_id reason = record {
  tool_id = tool;
  device_id = device_id;
  grant = not (is_some reason);
  ttl_ms = ttl_millis ttl;
  reason = reason;
}

-- Stage, then name.
unfoldable pub stage_order : DeviceBinding → DeviceBinding → Bool
stage_order a b =
    ltb_ℤ a.start_stage b.start_stage
    || (leb_ℤ a.start_stage b.start_stage && leb_text a.name b.name)

unfoldable pub power_bindings : ToolModuleTool → List DeviceBinding
power_bindings t = sort_by stage_order (filter (λ (m : DeviceBinding). m.role == "power") t.modules)

unfoldable pub sensor_bindings : ToolModuleTool → List DeviceBinding
sensor_bindings t =
    sort_by (λ (a b : DeviceBinding). leb_text a.name b.name)
      (filter (λ (m : DeviceBinding). m.role == "sensor") t.modules)

-- The latest relay state of each device, and when it was reported.
abbrev pub Relays : Type 0
Relays = Map String (Bool × ℕ)

-- When the binding's device confirmed its relay, if that is not older than the allow.
unfoldable pub confirmed_on_at : Relays → DeviceBinding → ℕ → Option ℕ
confirmed_on_at relays b since = elim (relays b.device_id) [
  | none ↦ none
  | some (on, at) ↦ if on && leb since at then some at else none
]

-- `power.iter().map(|b| b.start_stage).min().unwrap_or(0)`
unfoldable pub first_stage : List DeviceBinding → ℤ
first_stage [] = pos 0
first_stage (b ∷ bs) =
    foldl (λ (m : ℤ) (x : DeviceBinding). if leb_ℤ m x.start_stage then m else x.start_stage)
      b.start_stage bs

-- The latest confirmation among earlier bindings, or nothing while one is missing.
unfoldable pub latest_confirmation : Relays → ℕ → ℕ → List DeviceBinding → Option ℕ
latest_confirmation relays since base [] = some base
latest_confirmation relays since base (e ∷ es) = elim (confirmed_on_at relays e since) [
  | none ↦ none
  | some at ↦ latest_confirmation relays since (max base at) es
]

-- Where the clock of a binding starts.
unfoldable pub start_base : Relays → List DeviceBinding → ℕ → DeviceBinding → Option ℕ
start_base relays power since b =
    if leb_ℤ b.start_stage (first_stage power)
    then some since
    else latest_confirmation relays since since
        (filter (λ (e : DeviceBinding). ltb_ℤ e.start_stage b.start_stage) power)

unfoldable pub is_due : Relays → List DeviceBinding → ℕ → ℕ → DeviceBinding → Bool
is_due relays power since now b = elim (start_base relays power since b) [
  | none ↦ false
  | some base ↦ leb (base + millis (pos_part b.start_delay_ms)) now
]

-- Where a binding is not due yet, nothing is sent to it. The map is `granted_since`.
unfoldable pub allow_power :
    String
    → ℕ
    → ℕ
    → ℕ
    → Relays
    → List DeviceBinding
    → List DeviceBinding
    → Map String ℕ
    → Map String ℕ × List LeaseAction
allow_power tool ttl now since relays power [] granted = (granted, [])
allow_power tool ttl now since relays power (b ∷ bs) granted =
    let due = is_due relays power since now b in
    let rest =
      allow_power tool ttl now since relays power bs
        (if due then or_insert b.id now granted else granted) in
    (rest.0, if due then lease tool ttl b.device_id none ∷ rest.1 else rest.1)

unfoldable pub allow_tool :
    String → ℕ → ℕ → ToolModuleTool → ModuleState → ModuleState × List LeaseAction
unfolding allow_power
allow_tool tool ttl now wiring s =
    let key = wiring.tool_id in
    let power = power_bindings wiring in
    let allowed = or_insert key now s.allowed_since in
    let since = unwrap_or now (allowed key) in
    let granted = allow_power tool ttl now since s.relay_state power power s.granted_since in
    let sensors =
      map (λ (b : DeviceBinding). lease tool ttl b.device_id none) (sensor_bindings wiring) in
    (
      record s {
        allowed_since = allowed;
        run_on_until =
            foldl (λ (m : Map String ℕ) (b : DeviceBinding). remove b.id m) s.run_on_until power;
        granted_since = granted.0;
      },
      granted.1 ++ sensors,
    )

-- Run-on begins, at the transition, for what was on.
unfoldable pub begin_run_on : ℕ → Map String ℕ → List DeviceBinding → Map String ℕ → Map String ℕ
begin_run_on now granted [] run_on = run_on
begin_run_on now granted (b ∷ bs) run_on = begin_run_on now granted bs (
    if ltb_ℤ (pos 0) b.run_on_ms && is_some (granted b.id)
    then insert b.id (now + millis (pos_part b.run_on_ms)) run_on
    else run_on)

unfoldable pub running_on : Map String ℕ → ℕ → DeviceBinding → Bool
running_on run_on now b = is_some_and (λ until. ltb now until) (run_on b.id)

-- The maps are `run_on_until` and `granted_since`.
unfoldable pub deny_power :
    String
    → ℕ
    → ℕ
    → Denial
    → List DeviceBinding
    → Map String ℕ
    → Map String ℕ
    → Map String ℕ × Map String ℕ × List LeaseAction
deny_power tool ttl now denial [] run_on granted = (run_on, granted, [])
deny_power tool ttl now denial (b ∷ bs) run_on granted =
    let runs = running_on run_on now b in
    let rest =
      deny_power tool ttl now denial bs (if runs then run_on else remove b.id run_on)
        (if runs then granted else remove b.id granted) in
    (rest.0, rest.1, lease tool ttl b.device_id (if runs then none else some denial) ∷ rest.2)

unfoldable pub deny_tool :
    String → ℕ → ℕ → Denial → ToolModuleTool → ModuleState → ModuleState × List LeaseAction
unfolding deny_power begin_run_on
deny_tool tool ttl now denial wiring s =
    let key = wiring.tool_id in
    let power = power_bindings wiring in
    let run_on =
      if is_some (s.allowed_since key)
      then begin_run_on now s.granted_since power s.run_on_until
      else s.run_on_until in
    let refused = deny_power tool ttl now denial power run_on s.granted_since in
    let sensors =
      map (λ (b : DeviceBinding). lease tool ttl b.device_id (some denial))
        (sensor_bindings wiring) in
    (
      record s {
        allowed_since = remove key s.allowed_since;
        run_on_until = refused.0;
        granted_since = refused.1;
      },
      refused.2 ++ sensors,
    )

-- What is sent for a tool, by its wiring and its decision.
unfoldable pub act :
    String → ℕ → ℕ → Option ToolModuleTool → Decision → ModuleState → ModuleState × List LeaseAction
unfolding allow_tool deny_tool
act tool ttl now none decision s = (s, [])
act tool ttl now (some wiring) allow s = allow_tool tool ttl now wiring s
act tool ttl now (some wiring) (deny denial) s = deny_tool tool ttl now denial wiring s

-- One round of the loop over the tools.
unfoldable pub tick_tool : ℕ → ℕ → ℕ → String → ModuleState → ModuleState × List LeaseAction
unfolding act
tick_tool now ttl timeout tool s =
    let renewed = renew tool now ttl timeout s in
    act tool ttl now (wiring_of renewed.0 tool) renewed.1 renewed.0

unfoldable pub tick_tools : ℕ → ℕ → ℕ → List String → ModuleState → ModuleState × List LeaseAction
unfolding tick_tool
tick_tools now ttl timeout [] s = (s, [])
tick_tools now ttl timeout (tool ∷ rest) s =
    let first = tick_tool now ttl timeout tool s in
    let others = tick_tools now ttl timeout rest first.0 in (others.0, first.1 ++ others.1)

unfoldable pub tick : ℕ → ℕ → ℕ → ModuleState → ModuleState × List LeaseAction
unfolding tick_tools
tick now ttl timeout s = tick_tools now ttl timeout (tools s) s
