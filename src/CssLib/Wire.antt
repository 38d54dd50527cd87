-- ===== src/CssLib/Wire.antt =====
-- css_lib/src/wire.rs: the snapshots that the server sends to an edge about modules and power.
use cooperative_systems_spac.Prelude.{Bool, Option, List, String, ℤ}

-- A device bound to a resource in a role. `params`, which no code modelled here reads, is left out.
pub record DeviceBinding : Type 0 where
  pub id : String
  pub device_id : String
  pub role : String
  pub name : String
  pub on_disconnect : String
  pub start_stage : ℤ
  pub start_delay_ms : ℤ
  pub run_on_ms : ℤ
  pub pulse_ms : ℤ
  pub hold_open_access : Bool

pub record ToolInterlockRule : Type 0 where
  pub id : String
  pub kind : String
  pub condition : String
  pub source_module_id : Option String
  pub debounce_ms : ℤ
  pub latch : Bool
  pub reset : String
  pub enforcement : String

pub record ToolModuleTool : Type 0 where
  pub tool_id : String
  pub external_id : Option String
  pub kind : String
  pub session_profile : String
  pub in_use : Bool
  pub modules : List DeviceBinding
  pub interlocks : List ToolInterlockRule
  pub power_fails_safe : Bool

pub record ToolModuleStatePayload : Type 0 where
  pub as_of : String
  pub tools : List ToolModuleTool

pub record PowerStateCircuit : Type 0 where
  pub id : String
  pub amperage_limit : String

pub record PowerStateTool : Type 0 where
  pub id : String
  pub external_id : Option String
  pub circuit_id : Option String

pub record PowerStatePayload : Type 0 where
  pub as_of : String
  pub locked_tool_ids : List String
  pub circuits : List PowerStateCircuit
  pub tools : List PowerStateTool

pub record ResourcePolicy : Type 0 where
  pub id : String
  pub external_id : Option String
  pub name : String
  pub kind : String
  pub session_profile : String
  pub status : String
  pub requires_online : Bool
  pub in_use : Bool
  pub enabled : Bool
  pub pulse_ms : Option ℤ
  pub allow : List String
  pub deny : List String
  pub hold_until : Option String

pub record Principal : Type 0 where
  pub digest : String
  pub full_name : String
  pub is_active : Bool
  pub authorized : List String

pub record ResourcePolicyPayload : Type 0 where
  pub device_id : String
  pub as_of : String
  pub profile_field : String
  pub resources : List ResourcePolicy
  pub principals : List Principal
