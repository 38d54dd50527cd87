-- ===== src/Edge/Modules/Latches.antt =====
-- edge/src/modules.rs: a latched trip over any sequence of the module state's operations.
use cooperative_systems_spac.Prelude.{
  ℕ, ◌≡◌, refl, Bool, true, false, Option, some, List, [], ◌∷◌, String, arith, ◌==◌, string_eq,
  ==_refl, Option-cases, inl, inr, All,
}
use mathlib.Core.List.{foldl}
use cooperative_systems_spac.CssLib.Wire.{ToolModuleTool, ToolModuleStatePayload}
use cooperative_systems_spac.Edge.Modules.{
  ModuleState, tool_key, note_session, open_session, close_session, reconcile_tracked,
  apply_state_at, note_relay_state, observe, note_device_seen, note_module_seen, reset_latch,
  is_latched, wiring_of, bindings_of,
}
use cooperative_systems_spac.Edge.Modules.Interlocks.{
  Decision, deny, tripped, latched, evaluate, evaluate_wiring,
}
use cooperative_systems_spac.Edge.Modules.Leases.{renew, record_decision, latches}

-- The operations on the module state, in any order.
pub data Event : Type 0 where
  session_noted : String → Bool → ℕ → Event
  session_opened : String → ℕ → Option ℕ → Event
  synced : List String → List String → ℕ → ℕ → Event
  state_applied : ToolModuleStatePayload → Option ℕ → ℕ → Event
  relay_noted : String → Bool → ℕ → Event
  observed : String → String → Bool → ℕ → Event
  module_seen : String → ℕ → Event
  device_seen : String → ℕ → Event
  renewed : String → ℕ → ℕ → ℕ → Event
  latch_reset : String → Event

unfoldable pub step : ModuleState → Event → ModuleState
step s (session_noted tool opens now) = note_session tool opens now s
step s (session_opened tool now ends_at) = open_session tool now ends_at s
step s (synced in_use tracked now as_of) = reconcile_tracked in_use tracked now as_of s
step s (state_applied payload requested_at now) = apply_state_at payload requested_at now s
step s (relay_noted device on now) = note_relay_state device on now s
step s (observed tool condition asserted now) = observe tool condition asserted now s
step s (module_seen id now) = note_module_seen id now s
step s (device_seen device now) = (note_device_seen device now s).0
step s (renewed tool now ttl timeout) = (renew tool now ttl timeout s).0
step s (latch_reset tool) = reset_latch tool s

unfoldable pub run : ModuleState → List Event → ModuleState
unfolding step
run s events = foldl step s events

-- Every event but a reset of the latch.
abbrev pub is_reset_of : String → Event → Bool
is_reset_of key (latch_reset tool) = tool == key
is_reset_of key _ = false

seen-latched :
    (ids : List String) (now : ℕ) (s : ModuleState)
    → (foldl (λ x id. note_module_seen id now x) s ids).latched ≡ s.latched
unfolding note_module_seen
seen-latched [] now s = refl
seen-latched (id ∷ ids) now s = seen-latched ids now (note_module_seen id now s)

record_decision-latched :
    (key tool : String) (now ttl : ℕ) (d : Decision) (s : ModuleState)
    → is_latched s key ≡ true
    → is_latched (record_decision tool now ttl d s) key ≡ true
unfolding record_decision
record_decision-latched key tool now ttl d s h = ground arith

step-latched :
    (key : String) (s : ModuleState) (e : Event)
    → is_reset_of key e ≡ false
    → is_latched s key ≡ true
    → is_latched (step s e) key ≡ true
unfolding step note_session open_session close_session reconcile_tracked apply_state_at observe
    note_module_seen note_device_seen renew reset_latch
step-latched key s (session_noted tool opens now) n h = ground arith
step-latched key s (session_opened tool now ends_at) n h = h
step-latched key s (synced in_use tracked now as_of) n h = h
step-latched key s (state_applied payload requested_at now) n h = h
step-latched key s (relay_noted device on now) n h = h
step-latched key s (observed tool condition asserted now) n h = ground arith
step-latched key s (module_seen id now) n h = h
step-latched key s (device_seen device now) n h = rw (seen-latched (bindings_of s device) now s) h
step-latched key s (renewed tool now ttl timeout) n h =
    record_decision-latched key tool now ttl (evaluate s tool now timeout) s h
step-latched key s (latch_reset tool) n h = ground arith

pub run-latched :
    (key : String) (s : ModuleState) (events : List Event)
    → All (λ e. is_reset_of key e ≡ false) events
    → is_latched s key ≡ true
    → is_latched (run s events) key ≡ true
unfolding run
run-latched key s [] quiet h = h
run-latched key s (e ∷ events) quiet h =
    run-latched key (step s e) events quiet.1 (step-latched key s e quiet.0 h)

-- A renewal that finds a latching trip latches it.
renew-latched :
    (s : ModuleState) (tool condition : String) (now ttl timeout : ℕ)
    → evaluate s tool now timeout ≡ deny (tripped condition)
    → latches s tool condition ≡ true
    → is_latched (renew tool now ttl timeout s).0 (tool_key s tool) ≡ true
unfolding renew record_decision
renew-latched s tool condition now ttl timeout fires latching =
    rw (fires, record_decision) (rw latching (ground (arith, ==_refl (tool_key s tool))))

evaluate-latched :
    (s : ModuleState) (tool : String) (now timeout : ℕ) (w : ToolModuleTool)
    → wiring_of s tool ≡ some w
    → is_latched s w.tool_id ≡ true
    → (c : String) × (evaluate s tool now timeout ≡ deny (latched c))
unfolding evaluate evaluate_wiring wiring_of
evaluate-latched s tool now timeout w held on = elim (Option-cases (s.latched w.tool_id)) [
  | inl n ↦ ground arith
  | inr (c, e) ↦ (c, ground arith)
]

-- After a renewal that finds a firing trip which is configured to latch, and any events without a
-- reset of that tool's latch (new snapshots and readings, sessions, syncs and renewals among them),
-- every name that resolves to the tool is denied as latched, at any time.
pub latched_until_reset :
    (s : ModuleState) (tool condition : String) (now ttl timeout : ℕ) (events : List Event)
    (name : String) (later timeout' : ℕ) (w : ToolModuleTool)
    → evaluate s tool now timeout ≡ deny (tripped condition)
    → latches s tool condition ≡ true
    → All (λ e. is_reset_of (tool_key s tool) e ≡ false) events
    → wiring_of (run (renew tool now ttl timeout s).0 events) name ≡ some w
    → w.tool_id ≡ tool_key s tool
    → (c : String) × (evaluate (run (renew tool now ttl timeout s).0 events) name later timeout'
        ≡ deny (latched c))
latched_until_reset s tool condition now ttl timeout events name later timeout' w fires latching
      quiet held same =
    let first = renew-latched s tool condition now ttl timeout fires latching in
    let start = (renew tool now ttl timeout s).0 in
    let last = run-latched (tool_key s tool) start events quiet first in
    evaluate-latched (run start events) name later timeout' w held (rw same last)
