-- ===== src/Edge/Power/Examples.antt =====
-- A circuit of one saw, tripped by the edge while the server reports the saw locked; whole amperes.
use cooperative_systems_spac.Prelude.{
  ℕ, ◌≡◌, refl, ◌+◌, true, false, none, some, List, [], ◌∷◌, ltb, if◌then◌else◌, ◌==◌, string_eq,
}
use mathlib.Core.List.{foldl}
use cooperative_systems_spac.CssLib.Wire.{PowerStatePayload}
use cooperative_systems_spac.Edge.Power.{
  Amperes, PowerState, Event, applied, drawn, step, apply_state, circuit_locked, resolve,
  record_draw, draw_key, is_locked, mark_tripped, mark_tripped-is_locked,
}

abbrev whole : Amperes
whole = record {
  F = ℕ;
  zero = 0;
  add = λ a b. a + b;
  exceeds = λ a b. ltb b a;
  parse = λ s. if s == "15.0" then some 15 else none;
}

abbrev panel : PowerStatePayload
panel = record {
  as_of = "2026-01-05T10:00:00Z";
  locked_tool_ids = "t1" ∷ [];
  circuits = record { id = "c1"; amperage_limit = "15.0" } ∷ [];
  tools = record { id = "t1"; external_id = some "saw"; circuit_id = some "c1" } ∷ [];
}

abbrev start : PowerState whole
start = record { snapshot = none; latest_draw = []; local_tripped = λ _. false }

abbrev events : List (Event whole)
events = drawn "saw" 16 5 ∷ applied panel ∷ []

panel_held : (foldl step (mark_tripped "c1" start) events).snapshot ≡ some panel
unfolding step apply_state record_draw draw_key
panel_held = refl

mark_tripped-is_locked_example :
    is_locked (foldl step (mark_tripped "c1" start) events) "saw" ≡ true
unfolding circuit_locked resolve
mark_tripped-is_locked_example =
    mark_tripped-is_locked start "c1" events panel
      (record { id = "t1"; external_id = some "saw"; circuit_id = some "c1" }) "saw"
      (refl, (refl, tt)) panel_held refl refl
