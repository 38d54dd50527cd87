-- ===== src/Edge/Modules/Watchdog/Grants.antt =====
-- edge/src/modules.rs, `tick`: what a grant that is sent rests on.
use cooperative_systems_spac.Prelude.{
  In_of_append, In_of_map, ℕ, ◌<◌, ◌≡◌, ◌∙◌, refl, sym, ap, true, false, Option, none, some, map,
  String, if◌then◌else◌, string_eq, Map, is_some, arith, inl, inr, ◌⊎◌, Bool-cases, In, unwrap_or,
  or_insert, ==_refl,
}
use cooperative_systems_spac.CssLib.Wire.{DeviceBinding, ToolModuleTool}
use cooperative_systems_spac.Edge.Modules.{ModuleState, wiring_of}
use cooperative_systems_spac.Edge.Modules.Interlocks.{Denial, Decision, allow, deny, evaluate}
use cooperative_systems_spac.Edge.Modules.Leases.{renew, record_decision}
use cooperative_systems_spac.Edge.Modules.Watchdog.{
  LeaseAction, lease, power_bindings, sensor_bindings, is_due, allow_power, allow_tool,
  begin_run_on, deny_power, deny_tool, act, tick_tool,
}
use cooperative_systems_spac.Edge.Modules.Watchdog.Actions.{
  power_bindings-In, allow_power-In, deny_power-In, begin_run_on-cases, sensor_bindings-In, IsBegun,
  IsBound,
}

-- What a grant to a device rests on, at a pass over a tool.
pub data IsGrounded (s : ModuleState) (w : ToolModuleTool) (now : ℕ) (device_id : String)
    : Decision → Type 0 where
  by_session :
      (b : DeviceBinding)
      → IsBound w "sensor" b
      → b.device_id ≡ device_id
      → IsGrounded s w now device_id allow
  by_stage :
      (b : DeviceBinding)
      → IsBound w "power" b
      → b.device_id ≡ device_id
      → is_due s.relay_state (power_bindings w) (unwrap_or now (s.allowed_since w.tool_id)) now b
        ≡ true
      → IsGrounded s w now device_id allow
  by_run_on :
      {denial : Denial} (b : DeviceBinding) (until : ℕ)
      → IsBound w "power" b
      → b.device_id ≡ device_id
      → now < until
      → (s.run_on_until b.id ≡ some until)
        ⊎ ((is_some (s.allowed_since w.tool_id) ≡ true)
            × IsBegun now s.granted_since (power_bindings w) b.id until)
      → IsGrounded s w now device_id (deny denial)

or_insert-value :
    (key : String) (now : ℕ) (m : Map String ℕ)
    → unwrap_or now (or_insert key now m key) ≡ unwrap_or now (m key)
or_insert-value key now m = ground (arith, ==_refl key)

allow_tool-IsGrounded :
    (tool : String) (ttl now : ℕ) (w : ToolModuleTool) (s : ModuleState) (a : LeaseAction)
    → In a (allow_tool tool ttl now w s).1
    → IsGrounded s w now a.device_id allow
unfolding allow_tool
allow_tool-IsGrounded tool ttl now w s a m =
    let power = power_bindings w in
    let since = unwrap_or now (or_insert w.tool_id now s.allowed_since w.tool_id) in
    let out = allow_power tool ttl now since s.relay_state power power s.granted_since in
    let send : DeviceBinding → LeaseAction = λ b. lease tool ttl b.device_id none in
    elim (In_of_append out.1 (map send (sensor_bindings w)) m) [
      | inl l ↦
          let (b, i, d, due) =
            allow_power-In tool ttl now since s.relay_state power power s.granted_since a l in
          by_stage b (power_bindings-In w b i) d
            (rw (or_insert-value w.tool_id now s.allowed_since) at due)
      | inr r ↦
          let (b, i, e) = In_of_map send (sensor_bindings w) r in
          by_session b (sensor_bindings-In w b i) (ap (λ (x : LeaseAction). x.device_id) e)
    ]

deny_tool-IsGrounded :
    (tool : String) (ttl now : ℕ) (denial : Denial) (w : ToolModuleTool) (s : ModuleState)
    (a : LeaseAction)
    → In a (deny_tool tool ttl now denial w s).1
    → a.grant ≡ true
    → IsGrounded s w now a.device_id (deny denial)
unfolding deny_tool
deny_tool-IsGrounded tool ttl now denial w s a m g =
    let power = power_bindings w in
    let begun = begin_run_on now s.granted_since power s.run_on_until in
    let run_on = if is_some (s.allowed_since w.tool_id) then begun else s.run_on_until in
    let out = deny_power tool ttl now denial power run_on s.granted_since in
    let send : DeviceBinding → LeaseAction = λ b. lease tool ttl b.device_id (some denial) in
    elim (In_of_append out.2 (map send (sensor_bindings w)) m) [
      | inl l ↦
          let (b, i, d, (t, e, lt)) =
            deny_power-In tool ttl now denial power run_on s.granted_since a l g in
          by_run_on b t (power_bindings-In w b i) d lt
            (elim (Bool-cases (is_some (s.allowed_since w.tool_id))) [
              | inr f ↦ inl (rw f at e)
              | inl on ↦
                  elim (begin_run_on-cases now s.granted_since power s.run_on_until b.id t
                    (rw on at e)) [ inl before ↦ inl before | inr begins ↦ inr (on, begins) ]
            ])
      | inr r ↦
          let (b, i, e) = In_of_map send (sensor_bindings w) r in
          let refused : false ≡ a.grant = ap (λ (x : LeaseAction). x.grant) e in ground arith
    ]

-- A renewal leaves alone what grants rest on.
record_decision-same :
    (tool : String) (now ttl : ℕ) (d : Decision) (s : ModuleState)
    → let r = record_decision tool now ttl d s in
      (r.snapshot ≡ s.snapshot)
      × (r.relay_state ≡ s.relay_state)
      × (r.allowed_since ≡ s.allowed_since)
      × (r.run_on_until ≡ s.run_on_until)
      × (r.granted_since ≡ s.granted_since)
unfolding record_decision
record_decision-same tool now ttl d s = ground arith

IsGrounded-same :
    (s r : ModuleState) (w : ToolModuleTool) (now : ℕ) (id : String) (d : Decision)
    → r.relay_state ≡ s.relay_state
    → r.allowed_since ≡ s.allowed_since
    → r.run_on_until ≡ s.run_on_until
    → r.granted_since ≡ s.granted_since
    → IsGrounded r w now id d
    → IsGrounded s w now id d
IsGrounded-same s r w now id d p q t g (by_session b i e) = by_session b i e
IsGrounded-same s r w now id d p q t g (by_stage b i e due) = by_stage b i e (rw (p, q) at due)
IsGrounded-same s r w now id d p q t g (by_run_on b until i e lt (inl h)) =
    by_run_on b until i e lt (inl (rw t at h))
IsGrounded-same s r w now id d p q t g (by_run_on b until i e lt (inr (on, begun))) =
    by_run_on b until i e lt (inr (rw q at on, rw g at begun))

act-IsGrounded :
    (tool : String) (ttl now : ℕ) (held : Option ToolModuleTool) (d : Decision) (s : ModuleState)
    (a : LeaseAction)
    → In a (act tool ttl now held d s).1
    → a.grant ≡ true
    → (w : ToolModuleTool) × (held ≡ some w) × IsGrounded s w now a.device_id d
unfolding act
act-IsGrounded tool ttl now none d s a m g = elim m [ ]
act-IsGrounded tool ttl now (some w) allow s a m g =
    (w, refl, allow_tool-IsGrounded tool ttl now w s a m)
act-IsGrounded tool ttl now (some w) (deny denial) s a m g =
    (w, refl, deny_tool-IsGrounded tool ttl now denial w s a m g)

wiring_of-same :
    (s r : ModuleState) (tool : String)
    → r.snapshot ≡ s.snapshot
    → wiring_of r tool ≡ wiring_of s tool
unfolding wiring_of
wiring_of-same s r tool h = rw h refl

-- A grant that a pass over a tool sends rests on the tool's wiring and decision of that moment: while
-- allowed, it goes to a sensor binding, or to a power binding that is due in its start stage; while
-- denied, to a power binding whose run-on ends later than now, and that run-on was set before or
-- begins here, where the tool had been allowed and the binding leased, with the length configured.
pub tick_tool-IsGrounded :
    (s : ModuleState) (tool : String) (now ttl timeout : ℕ) (a : LeaseAction)
    → In a (tick_tool now ttl timeout tool s).1
    → a.grant ≡ true
    → (w : ToolModuleTool) × (wiring_of s tool ≡ some w)
      × IsGrounded s w now a.device_id (evaluate s tool now timeout)
unfolding tick_tool renew
tick_tool-IsGrounded s tool now ttl timeout a m g =
    let d = evaluate s tool now timeout in
    let r = record_decision tool now ttl d s in
    let (same, p, q, t, u) = record_decision-same tool now ttl d s in
    let (w, e, grounds) = act-IsGrounded tool ttl now (wiring_of r tool) d r a m g in
    (
      w,
      sym (wiring_of-same s r tool same) ∙ e,
      IsGrounded-same s r w now a.device_id d p q t u grounds,
    )
