-- ===== src/Edge/Power/Fixtures.antt =====
-- A power state that counts no amperes, for the tests about other parts.
use cooperative_systems_spac.Prelude.{false, none}
use cooperative_systems_spac.Edge.Power.{Amperes}

abbrev pub none_drawn : Amperes
none_drawn = record {
  F = Unit;
  zero = tt;
  add = λ _ _. tt;
  exceeds = λ _ _. false;
  parse = λ _. none;
}
