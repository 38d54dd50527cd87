-- ===== src/Server/Schedules/Fixtures.antt =====
-- A week of opening hours, the UTC zone and an instant, which the tests of the server use.
use cooperative_systems_spac.Prelude.{
  ℕ, ◌+◌, ◌*◌, ◌/◌, ◌%◌, List, [], ◌∷◌, if◌then◌else◌, ◌==◌, nat_eq,
}
use cooperative_systems_spac.Server.Schedules.{Weekday, DayOfWeek, ScheduleInterval, Tz, single}

-- A minute of the day, and the hours of a day.
abbrev pub at : ℕ → ℕ
at m = m * 60000000000

abbrev pub hours : DayOfWeek → ℕ → ℕ → ScheduleInterval
hours day from to = record { day = day; start = at (from * 60); end = at (to * 60) }

-- Monday in two touching halves, the later one first, and a Tuesday morning.
abbrev pub week : List ScheduleInterval
week = hours DayOfWeek.mon 12 17 ∷ hours DayOfWeek.mon 9 12 ∷ hours DayOfWeek.tue 9 10 ∷ []

abbrev pub weekday_of : ℕ → Weekday
weekday_of n =
    if n == 0
    then Weekday.mon
    else if n == 1
    then Weekday.tue
    else if n == 2
    then Weekday.wed
    else if n == 3
    then Weekday.thu
    else if n == 4
    then Weekday.fri
    else if n == 5
    then Weekday.sat
    else Weekday.sun

-- The epoch is a Thursday.
abbrev pub utc : Tz
utc = record {
  weekday = λ i. weekday_of ((i / 86400000000000 + 3) % 7);
  time = λ i. i % 86400000000000;
  date = λ i. i / 86400000000000;
  from_local_datetime = λ n. single n;
}

-- The first Monday of the epoch, at ten.
abbrev pub monday_ten : ℕ
monday_ten = 4 * 86400000000000 + at 600
