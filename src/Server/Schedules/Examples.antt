-- ===== src/Server/Schedules/Examples.antt =====
-- Runs of the schedule code at a concrete week, in UTC.
use cooperative_systems_spac.Prelude.{ℕ, ◌+◌, ◌*◌, ◌%◌, ◌≡◌, refl, ap, some, [], ◌∷◌, arith, nat_eq}
use cooperative_systems_spac.Server.Schedules.{
  DayOfWeek, window_end, active_until, validate, from_chrono,
}
use cooperative_systems_spac.Server.Schedules.Fixtures.{
  at, hours, week, weekday_of, utc, monday_ten,
}
use cooperative_systems_spac.Server.Schedules.Hold.{TzLaws}

utc-TzLaws : TzLaws utc
utc-TzLaws = record {
  reads_single = λ n i h. ground (arith, h);
  reads_ambiguous = λ n i j h. cc;
  time_of_day = λ i. omega arith;
  weekday_of_date = λ i j h. ap (λ (d : ℕ). weekday_of ((d + 3) % 7)) h;
}

window_of_monday : window_end week DayOfWeek.mon (at 600) ≡ some (at 1020)
unfolding window_end
window_of_monday = refl

active_until_monday : active_until week utc monday_ten ≡ some (4 * 86400000000000 + at 1020)
unfolding active_until window_end from_chrono
active_until_monday = refl

validate_inverted : validate (hours DayOfWeek.mon 9 10 ∷ hours DayOfWeek.mon 17 9 ∷ []) ≡ some 1
unfolding validate
validate_inverted = refl
