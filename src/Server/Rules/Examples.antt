-- ===== src/Server/Rules/Examples.antt =====
-- Access rules compiled at a concrete instant.
use cooperative_systems_spac.Prelude.{
  ℕ, ◌+◌, ◌*◌, ◌≡◌, refl, Option, none, some, List, [], ◌∷◌, String,
}
use cooperative_systems_spac.Server.Schedules.{
  DayOfWeek, ScheduleInterval, active_until, window_end, from_chrono,
}
use cooperative_systems_spac.Server.Schedules.Fixtures.{at, hours, week, utc, monday_ten}
use cooperative_systems_spac.Server.Rules.{
  AccessRule, Clockwork, intervals_of, rule_hold, open_access_hold_until_at, parse_kind,
  parse_effect, schedule_state_at, unresolvable, window_state,
}

-- Schedule 7 is the week, schedule 8 does not parse, and schedule 9 is Monday until eighteen.
abbrev clock : Clockwork (Option (List ScheduleInterval))
clock = record {
  parse_intervals = λ o. o;
  schedules =
      record { id = 7; intervals = some week }
      ∷ record { id = 8; intervals = none }
      ∷ record { id = 9; intervals = some (hours DayOfWeek.mon 8 18 ∷ []) }
      ∷ [];
  tz = utc;
  now = monday_ten;
}

abbrev open_hours : ℕ → String → AccessRule
open_hours sid effect = record {
  kind = "open_access";
  value = "";
  effect = effect;
  schedule_id = some sid;
}

abbrev rules : List AccessRule
rules =
    open_hours 9 "allow" ∷ open_hours 7 "allow" ∷ open_hours 8 "allow" ∷ open_hours 9 "deny" ∷ []

hold_of_rules : open_access_hold_until_at clock rules ≡ some (4 * 86400000000000 + at 1080)
unfolding open_access_hold_until_at rule_hold parse_kind parse_effect intervals_of active_until
    window_end from_chrono
hold_of_rules = refl

deleted_schedule : schedule_state_at clock (some 3) ≡ unresolvable
unfolding schedule_state_at window_state intervals_of
deleted_schedule = refl
