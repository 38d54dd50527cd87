-- ===== src/Server/Bypass.antt =====
-- server/src/bypass.rs, `sweep_once`: the sweep over the bound modules, which records transitions.
pub mod Quiet
mod Examples
use cooperative_systems_spac.Prelude.{
  ℕ, suc, ◌-◌, ◌/◌, Bool, true, false, Option, none, some, List, [], ◌∷◌, ℤ, pos, Map, insert,
  nat_eq, if◌then◌else◌,
}
use cooperative_systems_spac.CssLib.Bypass.{
  LivenessTransition, went_silent, returned, no_change, classify_liveness,
}

-- `ToolModuleSilent` and `ToolModuleReturned` of the audit log.
pub data LivenessEvent : Type 0 where
  tool_module_silent tool_module_returned : LivenessEvent

-- A row of `bound_modules_with_liveness`; the name, role and device only go into the audit row.
pub record BoundModule : Type 0 where
  pub module_id : ℕ
  pub last_seen : Option ℕ

-- The latest liveness event of each module in the audit log.
abbrev pub Recorded : Type 0
Recorded = Map ℕ LivenessEvent

abbrev pub is_silent_event : Option LivenessEvent → Bool
is_silent_event (some tool_module_silent) = true
is_silent_event _ = false

abbrev pub previously_silent : Recorded → ℕ → Bool
previously_silent recorded id = is_silent_event (recorded id)

abbrev pub write : ℕ → Option LivenessEvent → Recorded → Recorded
write id none log = log
write id (some event) log = insert id event log

-- `num_seconds`, for a time that is not in the future.
abbrev pub seconds_since_seen : ℕ → BoundModule → Option ℤ
seconds_since_seen now m = elim m.last_seen [
  | none ↦ none
  | some t ↦ some (pos ((now - t) / 1000000000))
]

-- The event that a row of the sweep writes, by what was recorded before the sweep.
unfoldable pub event_of : ℤ → ℕ → Recorded → BoundModule → Option LivenessEvent
event_of silence_secs now recorded m =
    elim (classify_liveness (seconds_since_seen now m) silence_secs
      (previously_silent recorded m.module_id)) [
        | no_change ↦ none
        | went_silent ↦ some tool_module_silent
        | returned ↦ some tool_module_returned
      ]

-- The loop over the modules: the log after it, and how many rows it wrote. `recorded` was read before.
unfoldable pub sweep : ℤ → ℕ → Recorded → List BoundModule → Recorded → Recorded × ℕ
unfolding event_of
sweep silence_secs now recorded [] log = (log, 0)
sweep silence_secs now recorded (m ∷ modules) log =
    let event = event_of silence_secs now recorded m in
    let rest = sweep silence_secs now recorded modules (write m.module_id event log) in
    (rest.0, elim event [ none ↦ rest.1 | some _ ↦ suc rest.1 ])

unfoldable pub sweep_once : ℤ → ℕ → List BoundModule → Recorded → Recorded × ℕ
unfolding sweep
sweep_once silence_secs now modules log = sweep silence_secs now log modules log
