-- ===== src/Deployment/Badges/Examples.antt =====
-- The front door, compiled on Monday at ten, and a swipe an hour later at an edge that is offline.
use cooperative_systems_spac.Prelude.{
  ◌≡◌, ◌+◌, refl, true, false, none, some, [], ◌∷◌, pos, ◌↔◌, empty_map, if◌then◌else◌, ◌==◌,
  nat_eq, string_eq,
}
use cooperative_systems_spac.Server.Schedules.Fixtures.{monday_ten}
use cooperative_systems_spac.Server.Rules.{open_access_hold_until_at, rule_hold, parse_kind}
use cooperative_systems_spac.Server.Access.{unlock, AccessDecision, evaluate}
use cooperative_systems_spac.Server.Access.Snapshot.{card_holder}
use cooperative_systems_spac.Server.Access.Fixtures.{
  uuid, graph, clock, roster, rules, c1-IsSoleHolder, rules-IsCanonical,
}
use cooperative_systems_spac.Server.Compile.{
  Door, DoorRows, compile_door, strike_profile, door_strike,
}
use cooperative_systems_spac.Edge.Modules.{new, seconds}
use cooperative_systems_spac.Edge.Power.{is_locked}
use cooperative_systems_spac.Edge.Power.Fixtures.{none_drawn}
use cooperative_systems_spac.Edge.Resources.{ResourceCache, Outside, decide, is_allowed}
use cooperative_systems_spac.Edge.Resources.Ingest.{from_compiled_door, is_stale}
use cooperative_systems_spac.Deployment.Badges.{delivered, IsPlain, decide-evaluate}

abbrev outside : Outside
outside = record {
  parse_uuid = λ s. if s == "d7" then some 7 else none;
  parse_instant = λ _. none;
  uuid_text = λ u. if u == 7 then "d7" else "";
  wire_digest_hex = λ card. if card == "0042" then some "c1" else none;
}

abbrev front : Door
front = record { id = 7; name = "Front"; enabled = true }

abbrev db : DoorRows
db = record {
  rules_for_door = λ d. if d == 7 then rules else [];
  strike_rows = λ _. (pos 4000, true) ∷ [];
  default_unlock_duration_ms = pos 3000;
}

abbrev edge : ResourceCache none_drawn
edge = record {
  wiring = new;
  power = record { snapshot = none; latest_draw = []; local_tripped = λ _. false };
  policy = record { entries = []; names = empty_map; members = []; applied_at = none };
  hold_sent = empty_map;
}

front-IsPlain :
    IsPlain uuid graph roster clock db outside edge
      (front ∷ [])
      "d7"
      front
      (monday_ten + seconds 3600)
unfolding is_stale is_locked from_compiled_door compile_door strike_profile door_strike
    open_access_hold_until_at rule_hold parse_kind
front-IsPlain = record {
  fresh = refl;
  unnamed = refl;
  listed = refl;
  powered = refl;
  no_member = refl;
  window_over = refl;
}

decide-evaluate_example :
    (is_allowed (
        decide outside
          (delivered uuid graph roster clock db outside edge (front ∷ []))
          "d7"
          "0042"
          (monday_ten + seconds 3600))
      ≡ true)
    ↔ (evaluate uuid graph clock true rules (card_holder roster 100 "c1") unlock
        ≡ AccessDecision.allow)
decide-evaluate_example =
    decide-evaluate uuid graph roster clock db outside edge (front ∷ []) 100 "c1" c1-IsSoleHolder
      refl "d7" "0042" front (monday_ten + seconds 3600) unlock front-IsPlain refl rules-IsCanonical
