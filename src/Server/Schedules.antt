-- ===== src/Server/Schedules.antt =====
-- server/src/schedules.rs: weekly windows and the instant at which an open window ends.
-- An instant is a number of nanoseconds since the epoch, a time of day one since midnight and a
-- civil date-time one since the civil epoch. What chrono and chrono_tz compute is the record `Tz`.
pub mod Window
pub mod Hold
pub mod Fixtures
mod Examples
use cooperative_systems_spac.Prelude.{
  ℕ, zero, suc, ◌+◌, ◌-◌, ◌*◌, ◌≡◌, Bool, true, false, ◌&&◌, Option, none, some, List, [], ◌∷◌, ltb,
  leb, if◌then◌else◌, Eq, ◌==◌, nat_eq, ◌↔◌, arith, any, filter, find, length,
}

abbrev pub minute_ns : ℕ
minute_ns = 60000000000

abbrev pub day_ns : ℕ
day_ns = 86400000000000

-- chrono's days.
pub data Weekday : Type 0 where
  mon tue wed thu fri sat sun : Weekday

pub data DayOfWeek : Type 0 where
  mon tue wed thu fri sat sun : DayOfWeek

unfoldable pub from_chrono : Weekday → DayOfWeek
from_chrono Weekday.mon = DayOfWeek.mon
from_chrono Weekday.tue = DayOfWeek.tue
from_chrono Weekday.wed = DayOfWeek.wed
from_chrono Weekday.thu = DayOfWeek.thu
from_chrono Weekday.fri = DayOfWeek.fri
from_chrono Weekday.sat = DayOfWeek.sat
from_chrono Weekday.sun = DayOfWeek.sun

abbrev pub day_index : DayOfWeek → ℕ
day_index DayOfWeek.mon = 0
day_index DayOfWeek.tue = 1
day_index DayOfWeek.wed = 2
day_index DayOfWeek.thu = 3
day_index DayOfWeek.fri = 4
day_index DayOfWeek.sat = 5
day_index DayOfWeek.sun = 6

pub day_iff : (a b : DayOfWeek) → ((day_index a == day_index b) ≡ true) ↔ (a ≡ b)
day_iff a b = ground arith

instance abbrev pub day_eq : Eq DayOfWeek
day_eq = record { same? = λ a b. day_index a == day_index b; decides = day_iff }

pub record ScheduleInterval : Type 0 where
  pub day : DayOfWeek
  pub start : ℕ
  pub end : ℕ

-- chrono's answer to "which instant is this civil time?".
pub data LocalResult : Type 0 where
  single : ℕ → LocalResult
  ambiguous : ℕ → ℕ → LocalResult
  nonexistent : LocalResult

-- The site's time zone: the civil reading of an instant, and the instants of a civil date-time.
pub record Tz : Type 0 where
  pub weekday : ℕ → Weekday
  pub time : ℕ → ℕ
  pub date : ℕ → ℕ
  pub from_local_datetime : ℕ → LocalResult

-- The index of the first interval that does not end strictly after its start, or `none` for `Ok`.
validate_from : ℕ → List ScheduleInterval → Option ℕ
validate_from i [] = none
validate_from i (iv ∷ ivs) = if leb iv.end iv.start then some i else validate_from (i + 1) ivs

unfoldable pub validate : List ScheduleInterval → Option ℕ
unfolding validate_from
validate ivs = validate_from 0 ivs

-- `start <= t && t < end`
abbrev pub covers : ℕ → ScheduleInterval → Bool
covers t iv = leb iv.start t && ltb t iv.end

unfoldable pub matches_at : List ScheduleInterval → Tz → ℕ → Bool
matches_at ivs tz ts =
    let dow = from_chrono (tz.weekday ts) in
    let now = tz.time ts in any (λ iv. iv.day == dow && covers now iv) ivs

-- `sort_by_key(|iv| iv.start)`, which is stable.
insert_by_start : ScheduleInterval → List ScheduleInterval → List ScheduleInterval
insert_by_start iv [] = iv ∷ []
insert_by_start iv (x ∷ xs) =
    let rest = insert_by_start iv xs in if leb iv.start x.start then iv ∷ x ∷ xs else x ∷ rest

pub sort_by_start : List ScheduleInterval → List ScheduleInterval
sort_by_start [] = []
sort_by_start (iv ∷ ivs) = insert_by_start iv (sort_by_start ivs)

-- The same-day intervals, earliest start first.
abbrev pub day_of : DayOfWeek → List ScheduleInterval → List ScheduleInterval
day_of dow ivs = sort_by_start (filter (λ iv. iv.day == dow) ivs)

-- `iv.start <= end && iv.end > end`
abbrev extends : ℕ → ScheduleInterval → Bool
extends end iv = leb iv.start end && ltb end iv.end

-- The `while let`: on fuel, one round for each interval of the day is enough (`Window`).
extend : ℕ → List ScheduleInterval → ℕ → ℕ
extend zero day end = end
extend (suc fuel) day end = elim (find (extends end) day) [
  | none ↦ end
  | some iv ↦ extend fuel day iv.end
]

-- The local time of day at which the window that holds `now` ends.
unfoldable pub window_end : List ScheduleInterval → DayOfWeek → ℕ → Option ℕ
unfolding extend sort_by_start insert_by_start
window_end ivs dow now =
    let day = day_of dow ivs in
    elim (find (covers now) day) [ none ↦ none | some iv ↦ some (extend (length day) day iv.end) ]

-- The instant of a local end; in a spring-forward gap, that of a minute earlier.
-- `LocalResult::single`
single_instant : LocalResult → Option ℕ
single_instant (LocalResult.single dt) = some dt
single_instant (LocalResult.ambiguous a b) = none
single_instant LocalResult.nonexistent = none

anchor : Tz → ℕ → LocalResult → Option ℕ
unfolding single_instant
anchor tz naive_end (LocalResult.single dt) = some dt
anchor tz naive_end (LocalResult.ambiguous dt _) = some dt
anchor tz naive_end LocalResult.nonexistent =
    single_instant (tz.from_local_datetime (naive_end - minute_ns))

unfoldable pub active_until : List ScheduleInterval → Tz → ℕ → Option ℕ
unfolding anchor
active_until ivs tz ts =
    let naive = λ (end : ℕ). tz.date ts * day_ns + end in
    elim (window_end ivs (from_chrono (tz.weekday ts)) (tz.time ts)) [
      | none ↦ none
      | some end ↦ anchor tz (naive end) (tz.from_local_datetime (naive end))
    ]
