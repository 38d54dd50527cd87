-- ===== src/Edge/Modules/Watchdog/Actions.antt =====
-- edge/src/modules.rs, `tick`: what the parts of a pass over a tool send, and the run-ons that they leave.
use cooperative_systems_spac.Prelude.{
  In_of_filter, ℕ, ◌+◌, ◌<◌, ◌≡◌, refl, ap, true, false, ◌&&◌, some, List, [], ◌∷◌, String,
  if◌then◌else◌, ◌==◌, string_eq, Map, insert, remove, is_some, filter, pos, pos_part, ltb_ℤ, arith,
  inl, inr, ◌⊎◌, Bool-cases, Option-cases, Any, In, In-cons, sort_by-In, or_insert, ==_iff,
}
use cooperative_systems_spac.CssLib.Wire.{DeviceBinding, ToolModuleTool}
use cooperative_systems_spac.Edge.Modules.{millis}
use cooperative_systems_spac.Edge.Modules.Interlocks.{Denial}
use cooperative_systems_spac.Edge.Modules.Watchdog.{
  Relays, LeaseAction, power_bindings, sensor_bindings, stage_order, is_due, allow_power,
  begin_run_on, running_on, deny_power,
}

pub power_bindings-In :
    (w : ToolModuleTool) (b : DeviceBinding)
    → In b (power_bindings w)
    → In b w.modules × ((b.role == "power") ≡ true)
unfolding power_bindings
power_bindings-In w b m =
    In_of_filter (λ (x : DeviceBinding). x.role == "power") w.modules
      (sort_by-In stage_order (filter (λ (x : DeviceBinding). x.role == "power") w.modules) m)

pub remove-some :
    (k id : String) (m : Map String ℕ) (t : ℕ) → remove k m id ≡ some t → m id ≡ some t
remove-some k id m t h = ground arith

pub running_on-until :
    (run_on : Map String ℕ) (now : ℕ) (b : DeviceBinding)
    → running_on run_on now b ≡ true
    → (until : ℕ) × (run_on b.id ≡ some until) × (now < until)
unfolding running_on
running_on-until run_on now b h = elim (Option-cases (run_on b.id)) [
  | inl n ↦ ground arith
  | inr (t, e) ↦ (t, e, ground arith)
]

module _ (tool : String) (ttl now : ℕ) where
  pub allow_power-In :
      (since : ℕ) (relays : Relays) (power bs : List DeviceBinding) (granted : Map String ℕ)
      (a : LeaseAction)
      → In a (allow_power tool ttl now since relays power bs granted).1
      → (b : DeviceBinding) × In b bs
        × (b.device_id ≡ a.device_id)
        × (is_due relays power since now b ≡ true)
  unfolding allow_power
  allow_power-In since relays power [] granted a m = elim m [ ]
  allow_power-In since relays power (b ∷ bs) granted a m =
      elim (Bool-cases (is_due relays power since now b)) [
        | inl t ↦ elim (In-cons (rw t at m)) [
          | inl e ↦ (b, Any.head refl, ap (λ (x : LeaseAction). x.device_id) e, t)
          | inr u ↦
              let next = or_insert b.id now granted in
              let (c, i, d, due) = allow_power-In since relays power bs next a u in
              (c, Any.tail i, d, due)
        ]
        | inr f ↦
            let (c, i, d, due) = allow_power-In since relays power bs granted a (rw f at m) in
            (c, Any.tail i, d, due)
      ]

  pub deny_power-In :
      (denial : Denial) (bs : List DeviceBinding) (run_on granted : Map String ℕ) (a : LeaseAction)
      → In a (deny_power tool ttl now denial bs run_on granted).2
      → a.grant ≡ true
      → (b : DeviceBinding) × In b bs
        × (b.device_id ≡ a.device_id)
        × ((until : ℕ) × (run_on b.id ≡ some until) × (now < until))
  unfolding deny_power
  deny_power-In denial [] run_on granted a m g = elim m [ ]
  deny_power-In denial (b ∷ bs) run_on granted a m g = elim (Bool-cases (running_on run_on now b)) [
    | inl t ↦ elim (In-cons (rw t at m)) [
      | inl e ↦ (
        b,
        Any.head refl,
        ap (λ (x : LeaseAction). x.device_id) e,
        running_on-until run_on now b t,
      )
      | inr u ↦
          let (c, i, d, r) = deny_power-In denial bs run_on granted a u g in (c, Any.tail i, d, r)
    ]
    | inr f ↦ elim (In-cons (rw f at m)) [
      | inl e ↦ let refused : false ≡ a.grant = ap (λ (x : LeaseAction). x.grant) e in ground arith
      | inr u ↦
          let (c, i, d, r) =
            deny_power-In denial bs (remove b.id run_on) (remove b.id granted) a u g in
          (c, Any.tail i, d, (r.0, remove-some b.id c.id run_on r.0 r.1, r.2))
    ]
  ]

-- The run-on of a binding that was leased, begun at this pass.
abbrev pub IsBegun : ℕ → Map String ℕ → List DeviceBinding → String → ℕ → Type 0
IsBegun now granted power id until =
    (c : DeviceBinding) × In c power
    × (c.id ≡ id)
    × (is_some (granted id) ≡ true)
    × (until ≡ now + millis (pos_part c.run_on_ms))

pub begin_run_on-cases :
    (now : ℕ) (granted : Map String ℕ) (bs : List DeviceBinding) (run_on : Map String ℕ)
    (id : String) (until : ℕ)
    → begin_run_on now granted bs run_on id ≡ some until
    → (run_on id ≡ some until) ⊎ IsBegun now granted bs id until
unfolding begin_run_on
begin_run_on-cases now granted [] run_on id until h = inl h
begin_run_on-cases now granted (b ∷ bs) run_on id until h =
    let begins = ltb_ℤ (pos 0) b.run_on_ms && is_some (granted b.id) in
    let end = now + millis (pos_part b.run_on_ms) in
    let next = if begins then insert b.id end run_on else run_on in
    elim (begin_run_on-cases now granted bs next id until h) [
      | inr (c, m, e, g, u) ↦ inr (c, Any.tail m, e, g, u)
      | inl l ↦ elim (Bool-cases begins) [
        | inr no_run ↦ inl (rw no_run at l)
        | inl runs ↦ elim (Bool-cases (b.id == id)) [
          | inr other ↦ inl (rw other at (rw runs at l))
          | inl same ↦
              let e : b.id ≡ id = (==_iff b.id id).0 same in
              let on : is_some (granted b.id) ≡ true = ground arith in
              let now_set : some end ≡ some until = rw same at (rw runs at l) in
              inr (b, Any.head refl, e, rw e at on, cc)
        ]
      ]
    ]

-- A module of the tool in the role.
abbrev pub IsBound : ToolModuleTool → String → DeviceBinding → Type 0
IsBound w role b = In b w.modules × ((b.role == role) ≡ true)

pub sensor_bindings-In :
    (w : ToolModuleTool) (b : DeviceBinding) → In b (sensor_bindings w) → IsBound w "sensor" b
unfolding sensor_bindings
sensor_bindings-In w b m =
    let sensors = filter (λ (x : DeviceBinding). x.role == "sensor") w.modules in
    In_of_filter (λ (x : DeviceBinding). x.role == "sensor") w.modules (sort_by-In _ sensors m)
