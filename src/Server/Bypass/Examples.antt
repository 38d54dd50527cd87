-- ===== src/Server/Bypass/Examples.antt =====
-- Two modules, one silent for a minute, swept twice with a threshold of half a minute.
use cooperative_systems_spac.Prelude.{◌≡◌, refl, some, List, [], ◌∷◌, pos, empty_map}
use cooperative_systems_spac.CssLib.Bypass.{is_silent}
use cooperative_systems_spac.Server.Bypass.{BoundModule, sweep_once}
use cooperative_systems_spac.Server.Bypass.Quiet.{sweep_once-again}

abbrev modules : List BoundModule
modules =
    record { module_id = 1; last_seen = some 0 }
    ∷ record { module_id = 2; last_seen = some 55000000000 }
    ∷ []

sweep_once-again_example :
    sweep_once (pos 30) 61000000000 modules (sweep_once (pos 30) 60000000000 modules empty_map).0
    ≡ ((sweep_once (pos 30) 60000000000 modules empty_map).0, 0)
unfolding is_silent
sweep_once-again_example =
    sweep_once-again (pos 30) 60000000000 61000000000 modules empty_map (refl, (refl, tt))
      (refl, (refl, tt))
