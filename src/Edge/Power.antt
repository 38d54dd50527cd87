-- ===== src/Edge/Power.antt =====
-- edge/src/power.rs, `PowerState`: the lockout that the server reports and the edge's own fast trip.
pub mod Fixtures
mod Examples
use cooperative_systems_spac.Prelude.{
  ℕ, ◌≡◌, refl, Bool, true, false, ◌&&◌, ◌||◌, not, Option, none, some, List, [], ◌∷◌, String, map,
  if◌then◌else◌, ◌==◌, string_eq, ==_refl, Map, empty_map, insert, is_some_and, unwrap_or, find,
  filter, filter_map, contains, all, any, is_empty, Assoc, lookup, put, upsert, sort_by, sort_by-In,
  leb_text, All, Any, In, In-cons, arith, inl, inr, Bool-cases, Option-cases,
}
use mathlib.Core.List.{foldl}
use cooperative_systems_spac.CssLib.Wire.{PowerStateCircuit, PowerStateTool, PowerStatePayload}

-- What the code uses of f64: `0.0`, `+`, `>`, and the parser of decimal strings.
pub record Amperes : Type 1 where
  pub F : Type 0
  pub zero : F
  pub add : F → F → F
  pub exceeds : F → F → Bool
  pub parse : String → Option F

module _ (amperes : Amperes) where
  -- `Inner`; `latest_draw` is walked over, `local_tripped` is a set.
  pub record PowerState : Type 0 where
    pub snapshot : Option PowerStatePayload
    pub latest_draw : Assoc String (amperes.F × ℕ)
    pub local_tripped : String → Bool

-- The circuit of a tool is `c`.
abbrev pub is_on : String → PowerStateTool → Bool
is_on c t = is_some_and (λ x. x == c) t.circuit_id

-- The loop ends at the first tool that is not locked.
unfoldable pub circuit_locked : PowerStatePayload → String → Bool
circuit_locked p c =
    let on = filter (is_on c) p.tools in
    all (λ (t : PowerStateTool). contains p.locked_tool_ids t.id) on && not (is_empty on)

-- By the external id or the id: the first tool that has either.
unfoldable pub resolve : PowerStatePayload → String → Option PowerStateTool
resolve p tool =
    find (λ (t : PowerStateTool). is_some_and (λ e. e == tool) t.external_id || (t.id == tool))
      p.tools

-- A tool listed twice counts with its last circuit.
unfoldable pub tool_circuits : PowerStatePayload → Map String String
tool_circuits p =
    foldl
      (λ (m : Map String String) (t : PowerStateTool). elim t.circuit_id [
        | none ↦ m
        | some c ↦ insert t.id c m
      ])
      empty_map p.tools

unfoldable pub totals :
    (amperes : Amperes) → Map String String → Assoc String (amperes.F × ℕ) → Assoc String amperes.F
totals amperes circuits draws =
    foldl
      (λ (m : Assoc String amperes.F) (d : String × (amperes.F × ℕ)). elim (circuits d.0) [
        | none ↦ m
        | some c ↦ upsert c amperes.zero (λ t. amperes.add t d.1.0) m
      ])
      [] draws

module _ {amperes : Amperes} where
  unfoldable pub apply_state : PowerStatePayload → PowerState amperes → PowerState amperes
  unfolding circuit_locked
  apply_state p s = record s {
    snapshot = some p;
    local_tripped = λ c. s.local_tripped c && circuit_locked p c;
  }

  unfoldable pub is_locked : PowerState amperes → String → Bool
  is_locked s tool = elim s.snapshot [
    | none ↦ false
    | some p ↦ elim (resolve p tool) [
      | none ↦ contains p.locked_tool_ids tool
      | some t ↦ contains p.locked_tool_ids t.id || is_some_and s.local_tripped t.circuit_id
    ]
  ]

  -- The id of a tool that the snapshot knows, or the name itself.
  unfoldable pub draw_key : PowerState amperes → String → String
  draw_key s tool = elim s.snapshot [
    | none ↦ tool
    | some p ↦ elim (resolve p tool) [ none ↦ tool | some t ↦ t.id ]
  ]

  unfoldable pub record_draw : String → amperes.F → ℕ → PowerState amperes → PowerState amperes
  record_draw tool amps now s = record s {
    latest_draw = put (draw_key s tool) (amps, now) s.latest_draw;
  }

  -- The loop's test of a circuit.
  unfoldable pub is_over : PowerState amperes → PowerStatePayload → PowerStateCircuit → Bool
  is_over s p c = elim (amperes.parse c.amperage_limit) [
    | none ↦ false
    | some limit ↦
        amperes.exceeds
          (unwrap_or amperes.zero (lookup c.id (totals amperes (tool_circuits p) s.latest_draw)))
          limit
        && not (s.local_tripped c.id)
  ]

  unfoldable pub evaluate_overages : PowerState amperes → List String
  evaluate_overages s = elim s.snapshot [
    | none ↦ []
    | some p ↦
        sort_by leb_text (map (λ (c : PowerStateCircuit). c.id) (filter (is_over s p) p.circuits))
  ]

  unfoldable pub mark_tripped : String → PowerState amperes → PowerState amperes
  mark_tripped c s = record s { local_tripped = λ x. (c == x) || s.local_tripped x }

-- The operations, in any order.
pub data Event (amperes : Amperes) : Type 0 where
  applied : PowerStatePayload → Event amperes
  drawn : String → amperes.F → ℕ → Event amperes
  tripped : String → Event amperes

module _ {amperes : Amperes} where
  unfoldable pub step : PowerState amperes → Event amperes → PowerState amperes
  step s (applied p) = apply_state p s
  step s (drawn tool amps now) = record_draw tool amps now s
  step s (tripped c) = mark_tripped c s

  -- The server's snapshots among the events report the circuit locked.
  abbrev pub keeps_locked : String → Event amperes → Bool
  keeps_locked c (applied p) = circuit_locked p c
  keeps_locked c (drawn tool amps now) = true
  keeps_locked c (tripped d) = true

  step-tripped :
      (c : String) (s : PowerState amperes) (e : Event amperes)
      → keeps_locked c e ≡ true
      → s.local_tripped c ≡ true
      → (step s e).local_tripped c ≡ true
  unfolding step apply_state record_draw mark_tripped
  step-tripped c s (applied p) k h = ground arith
  step-tripped c s (drawn tool amps now) k h = h
  step-tripped c s (tripped d) k h = ground arith

  run-tripped :
      (c : String) (s : PowerState amperes) (events : List (Event amperes))
      → All (λ e. keeps_locked c e ≡ true) events
      → s.local_tripped c ≡ true
      → (foldl step s events).local_tripped c ≡ true
  run-tripped c s [] k h = h
  run-tripped c s (e ∷ events) k h = run-tripped c (step s e) events k.1 (step-tripped c s e k.0 h)

  tripped-is_locked :
      (s : PowerState amperes) (p : PowerStatePayload) (t : PowerStateTool) (name c : String)
      → s.snapshot ≡ some p
      → resolve p name ≡ some t
      → t.circuit_id ≡ some c
      → s.local_tripped c ≡ true
      → is_locked s name ≡ true
  unfolding is_locked
  tripped-is_locked s p t name c held found on trip = ground arith

  -- After a local trip of a circuit, and any draws, trips and snapshots of which each reports the
  -- circuit locked, every tool that the last snapshot maps to the circuit is locked out.
  pub mark_tripped-is_locked :
      (s : PowerState amperes) (c : String) (events : List (Event amperes)) (p : PowerStatePayload)
      (t : PowerStateTool) (name : String)
      → All (λ e. keeps_locked c e ≡ true) events
      → (foldl step (mark_tripped c s) events).snapshot ≡ some p
      → resolve p name ≡ some t
      → t.circuit_id ≡ some c
      → is_locked (foldl step (mark_tripped c s) events) name ≡ true
  unfolding mark_tripped
  mark_tripped-is_locked s c events p t name keeps held found on =
      let trip : (mark_tripped c s).local_tripped c ≡ true = ground (arith, ==_refl c) in
      let last = run-tripped c (mark_tripped c s) events keeps trip in
      tripped-is_locked (foldl step (mark_tripped c s) events) p t name c held found on last
