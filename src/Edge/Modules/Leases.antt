-- ===== src/Edge/Modules/Leases.antt =====
-- edge/src/modules.rs: the lease (`renew`, `lease_valid`, `power_modules`, `tools`, `resource`).
use cooperative_systems_spac.Prelude.{
  ℕ, ◌+◌, ◌<◌, ◌≡◌, ◌↔◌, refl, Bool, true, false, ◌&&◌, Option, none, some, List, [], map, String,
  ltb, if◌then◌else◌, ◌==◌, string_eq, ==_refl, any, find, filter, insert, remove, is_some_and,
  arith, ℤ, pos, ltb_ℤ,
}
use cooperative_systems_spac.CssLib.Wire.{DeviceBinding, ToolInterlockRule, ToolModuleTool}
use cooperative_systems_spac.Edge.Modules.{ModuleState, tool_key, wiring_of}
use cooperative_systems_spac.Edge.Modules.Interlocks.{tripped, Decision, allow, deny, evaluate}

-- Whether a trip on the condition latches.
unfoldable pub latches : ModuleState → String → String → Bool
latches s tool condition = elim (wiring_of s tool) [
  | none ↦ false
  | some t ↦
      any (λ (r : ToolInterlockRule). (r.kind == "trip") && (r.condition == condition) && r.latch)
        t.interlocks
]

-- What a decision does to the lease and the latch.
unfoldable pub record_decision : String → ℕ → ℕ → Decision → ModuleState → ModuleState
record_decision tool now ttl allow s = record s {
  leases = insert (tool_key s tool) (now + ttl) s.leases;
}
record_decision tool now ttl (deny (tripped condition)) s =
    let key = tool_key s tool in
    record s {
      leases = remove key s.leases;
      latched = if latches s tool condition then insert key condition s.latched else s.latched;
    }
record_decision tool now ttl (deny _) s = record s { leases = remove (tool_key s tool) s.leases }

unfoldable pub renew : String → ℕ → ℕ → ℕ → ModuleState → ModuleState × Decision
unfolding record_decision
renew tool now ttl timeout s =
    let decision = evaluate s tool now timeout in
    (record_decision tool now ttl decision s, decision)

unfoldable pub lease_valid : ModuleState → String → ℕ → Bool
lease_valid s tool now = is_some_and (λ until. ltb now until) (s.leases (tool_key s tool))

unfoldable pub power_modules : ModuleState → String → List String
power_modules s tool = elim (wiring_of s tool) [
  | none ↦ []
  | some t ↦
      map (λ (m : DeviceBinding). m.device_id)
        (filter (λ (m : DeviceBinding). m.role == "power") t.modules)
]

unfoldable pub tools : ModuleState → List String
tools s = elim s.snapshot [ none ↦ [] | some p ↦ map (λ (t : ToolModuleTool). t.tool_id) p.tools ]

pub record ResourceWiring : Type 0 where
  pub id : String
  pub kind : String
  pub session_profile : String
  pub strike_pulse_ms : Option ℤ

unfoldable pub resource : ModuleState → String → Option ResourceWiring
resource s name = elim (wiring_of s name) [
  | none ↦ none
  | some t ↦ some (record {
    id = t.tool_id;
    kind = t.kind;
    session_profile = t.session_profile;
    strike_pulse_ms =
        elim (find (λ (m : DeviceBinding). (m.role == "strike") && ltb_ℤ (pos 0) m.pulse_ms)
          t.modules) [ none ↦ none | some m ↦ some m.pulse_ms ];
  })
]

-- The key stays when the snapshot does.
pub tool_key-same :
    (s r : ModuleState) (tool : String)
    → r.snapshot ≡ s.snapshot
    → tool_key r tool ≡ tool_key s tool
unfolding tool_key wiring_of
tool_key-same s r tool h = rw h refl

record_decision-snapshot :
    (s : ModuleState) (tool : String) (now ttl : ℕ) (d : Decision)
    → (record_decision tool now ttl d s).snapshot ≡ s.snapshot
unfolding record_decision
record_decision-snapshot s tool now ttl d = ground arith

record_decision-lease :
    (s : ModuleState) (tool : String) (now ttl at : ℕ) (d : Decision)
    → (is_some_and
          (λ until. ltb at until)
          ((record_decision tool now ttl d s).leases (tool_key s tool))
        ≡ true)
      ↔ ((d ≡ allow) × (at < now + ttl))
unfolding record_decision
record_decision-lease s tool now ttl at d =
    let same = ==_refl (tool_key s tool) in (λ h. ground (arith, same), λ h. ground (arith, same))

-- After a renewal the tool's lease is valid at a time exactly when the interlocks allowed it at the
-- renewal and the time is before the end of the lease.
pub renew-lease_valid :
    (s : ModuleState) (tool : String) (now ttl timeout at : ℕ)
    → (lease_valid (renew tool now ttl timeout s).0 tool at ≡ true)
      ↔ ((evaluate s tool now timeout ≡ allow) × (at < now + ttl))
unfolding renew lease_valid
renew-lease_valid s tool now ttl timeout at =
    let d = evaluate s tool now timeout in
    let r = record_decision tool now ttl d s in
    rw (tool_key-same s r tool (record_decision-snapshot s tool now ttl d))
      (record_decision-lease s tool now ttl at d)
