-- ===== src/Edge/Resources/Examples.antt =====
-- A front door with one card on its list, and its Open Access window.
use cooperative_systems_spac.Prelude.{
  In, Any, refl, Bool, true, false, ℕ, ◌≡◌, none, some, [], ◌∷◌, pos, empty_map, if◌then◌else◌,
  ◌==◌, nat_eq, string_eq,
}
use cooperative_systems_spac.Edge.Modules.{new, seconds, tool_key, wiring_of, open_session}
use cooperative_systems_spac.Edge.Modules.Leases.{resource}
use cooperative_systems_spac.Edge.Power.{is_locked}
use cooperative_systems_spac.Edge.Power.Fixtures.{none_drawn}
use cooperative_systems_spac.Edge.Resources.{
  door, Entry, ResourceCache, Outside, find_entry, named, decide, allow, decide_entry,
  decide_member, strike, resolved_from, start_session, session_end, parse_profile,
}
use cooperative_systems_spac.Edge.Resources.Pulses.{
  pulse_of, profile_of, end_of, decide-start_session,
}
use cooperative_systems_spac.Edge.Resources.Ingest.{DoorStateSnapshot}
use cooperative_systems_spac.Edge.Resources.Holds.{
  tick_holds, hold_pulses_at, send_holds, hold_pulse_ms,
}

abbrev outside : Outside
outside = record {
  parse_uuid = λ s. if s == "d7" then some 7 else none;
  parse_instant = λ _. none;
  uuid_text = λ u. if u == 7 then "d7" else "";
  wire_digest_hex = λ card. if card == "0042" then some "aa" else none;
}

abbrev front : Entry
front = record {
  id = 7;
  external_id = none;
  kind = door;
  session_profile = "";
  status = "";
  requires_online = false;
  enabled = true;
  pulse_ms = some (pos 3000);
  allow = "aa" ∷ [];
  deny = [];
  hold_until = some (seconds 100);
}

abbrev cache : ResourceCache none_drawn
cache = record {
  wiring = new;
  power = record { snapshot = none; latest_draw = []; local_tripped = λ _. false };
  policy = record { entries = front ∷ []; names = empty_map; members = []; applied_at = none };
  hold_sent = empty_map;
}

-- The door's snapshot of second 50, after that of second 60.
abbrev compiled : ℕ → Bool → DoorStateSnapshot
compiled at on = record {
  snapshot_at = at;
  doors =
      record {
        id = 7;
        name = "Front";
        enabled = on;
        unlock_duration_ms = pos 3000;
        allow_cards = "aa" ∷ [];
        deny_cards = [];
        hold_unlock_until = none;
      }
      ∷ [];
}

-- The card opens the door by its list, for the 3 seconds of the entry.
front_allowed : decide outside cache "d7" "0042" (seconds 200) ≡ allow (some (pos 3000))
unfolding decide decide_entry decide_member strike resolved_from resource wiring_of find_entry named
    is_locked parse_profile
front_allowed = refl

decide-start_session_example :
    let wiring = resource cache.wiring "d7" in
    (e : Entry) × (find_entry outside cache.policy "d7" ≡ some e)
    × (e.enabled ≡ true)
    × (some (pos 3000) ≡ pulse_of wiring e)
    × ((start_session outside "d7" (seconds 200) cache).wiring.local_sessions
          (tool_key cache.wiring "d7")
        ≡ some (record {
          opened = seconds 200;
          ends_at = end_of (profile_of wiring e) (some (pos 3000)) (seconds 200);
        }))
decide-start_session_example =
    decide-start_session outside cache "d7" "0042" (seconds 200) (some (pos 3000)) front_allowed

-- The session of the door ends with its pulse.
front_session :
    (start_session outside "d7" (seconds 200) cache).wiring.local_sessions "d7"
    ≡ some (record { opened = seconds 200; ends_at = some (seconds 203) })
unfolding start_session session_end open_session tool_key resolved_from resource wiring_of
    find_entry named parse_profile
front_session = refl

-- Within the window, the first pulse.
first_pulse : In (7, pos 45000) (tick_holds cache.policy (seconds 10) (seconds 30) empty_map).1
unfolding tick_holds hold_pulses_at send_holds hold_pulse_ms
first_pulse = Any.head refl
