-- ===== src/Server/CalendarWindow.antt =====
-- server/src/calendar/window.rs: a caller's two dates as a window of instants. chrono and the time
-- zone are parameters.
mod Bounds
mod Examples
use cooperative_systems_spac.Prelude.{
  ℕ, ◌+◌, ◌*◌, Bool, true, false, ◌&&◌, Option, none, some, String, not, if◌then◌else◌, is_some_and,
  leb,
}

pub data WindowError : Type 0 where
  unparseable : WindowError
  inverted : WindowError

pub data WindowResult {ℓ} (A : Type ℓ) : Type ℓ where
  ok : A → WindowResult A
  err : WindowError → WindowResult A

-- A date is its number; `parse_date` reads `YYYY-MM-DD`, `earliest_midnight` is the first instant of
-- the date in the zone, unless a change of the clocks skips it, and `one_as_utc` is one o'clock of the
-- date read as UTC.
pub record Zone : Type 0 where
  pub parse_date : String → Option ℕ
  pub earliest_midnight : ℕ → Option ℕ
  pub one_as_utc : ℕ → ℕ

abbrev pub one_day : ℕ
one_day = 86400000000000

-- The two `?`s and the comparison at the end.
unfoldable pub check_order : WindowResult ℕ → WindowResult ℕ → WindowResult (Option (ℕ × ℕ))
check_order (err e) stop = err e
check_order (ok start) (err e) = err e
check_order (ok start) (ok end) = if leb end start then err inverted else ok (some (start, end))

module _ (zone : Zone) where
  unfoldable pub start_of_day : String → WindowResult ℕ
  start_of_day text = elim (zone.parse_date text) [
    | none ↦ err unparseable
    | some date ↦ elim (zone.earliest_midnight date) [
      | none ↦ ok (zone.one_as_utc date)
      | some midnight ↦ ok midnight
    ]
  ]

  -- `from` where it is given, and now.
  unfoldable pub window_start : Option String → ℕ → WindowResult ℕ
  unfolding start_of_day
  window_start none now = ok now
  window_start (some text) now = start_of_day text

  -- A day after the start of `to` where it is given, and the lookahead.
  unfoldable pub window_stop : Option String → ℕ → ℕ → WindowResult ℕ
  unfolding start_of_day
  window_stop none lookahead_days now = ok (now + lookahead_days * one_day)
  window_stop (some text) lookahead_days now = elim (start_of_day text) [
    | err e ↦ err e
    | ok start ↦ ok (start + one_day)
  ]

  -- Neither date is given.
  abbrev pub is_open_ended : Option String → Option String → Bool
  is_open_ended from to = not (is_some_and (λ _. true) from) && not (is_some_and (λ _. true) to)

  unfoldable pub bounds : Option String → Option String → ℕ → ℕ → WindowResult (Option (ℕ × ℕ))
  unfolding window_start window_stop check_order
  bounds from to lookahead_days now =
      if is_open_ended from to
      then ok none
      else check_order (window_start from now) (window_stop to lookahead_days now)
