-- ===== src/Server/CalendarWindow/Examples.antt =====
-- Two dates in a zone five hours behind UTC, dates numbered from the epoch.
use cooperative_systems_spac.Prelude.{
  ◌≡◌, refl, ◌+◌, ◌*◌, none, some, string_eq, ◌==◌, if◌then◌else◌,
}
use cooperative_systems_spac.Server.CalendarWindow.{
  Zone, err, inverted, one_day, check_order, start_of_day, window_start, window_stop, bounds,
}

abbrev zone : Zone
zone = record {
  parse_date =
      λ t. if t == "1970-01-02" then some 1 else if t == "1970-01-09" then some 8 else none;
  earliest_midnight = λ d. some (d * one_day + 18000000000000);
  one_as_utc = λ d. d * one_day + 3600000000000;
}

backwards : bounds zone (some "1970-01-09") (some "1970-01-02") 30 0 ≡ err inverted
unfolding bounds check_order start_of_day window_start window_stop
backwards = refl
