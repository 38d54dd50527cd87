-- ===== src/Server/Membership/Anniversary.antt =====
-- server/src/membership.rs, `advance_period`: where the next anniversary falls.
use cooperative_systems_spac.Prelude.{
  ℕ, ◌≡◌, ◌+◌, ◌*◌, ◌≤◌, some, ◌⊎◌, inl, inr, Bool-cases, ◌==◌, ==_iff, nat_eq, arith,
}
use cooperative_systems_spac.Server.Membership.{
  Calendar, MembershipPeriod, monthly, quarterly, yearly, months_in, one_day, advance_period,
}

-- What chrono documents of `checked_add_months`: where it gives an instant, that is one whose day of
-- the month is the same, or, where that month has no such day, the month's last, after which the
-- first follows. A month has 28 days at least.
pub record CalendarLaws (calendar : Calendar) : Type 0 where
  pub same_or_last :
      (n t u : ℕ)
      → calendar.checked_add_months n t ≡ some u
      → (calendar.day u ≡ calendar.day t) ⊎ (calendar.day (u + one_day) ≡ 1)
  pub months_long :
      (n t u : ℕ) → calendar.checked_add_months n t ≡ some u → t + n * 28 * one_day ≤ u

-- The period after each instant up to `limit` is within chrono's range.
abbrev pub IsInRange : Calendar → MembershipPeriod → ℕ → Type 0
IsInRange calendar p limit =
    (t : ℕ) → t ≤ limit → (u : ℕ) × (calendar.checked_add_months (months_in p) t ≡ some u)

-- 28 days.
abbrev pub four_weeks : ℕ
four_weeks = 2419200000000000

months-positive : (p : MembershipPeriod) → 1 ≤ months_in p
months-positive monthly = omega arith
months-positive quarterly = omega arith
months-positive yearly = omega arith

-- Within the calendar's range, the next anniversary falls on the same day of the month or on a first, and at least 28 days for
-- each month of the period later.
pub advance_period-IsAnniversary :
    (calendar : Calendar) (laws : CalendarLaws calendar) (date : ℕ) (p : MembershipPeriod)
    → IsInRange calendar p date
    → ((calendar.day (advance_period calendar date p) ≡ calendar.day date)
        ⊎ (calendar.day (advance_period calendar date p) ≡ 1))
      × (date + months_in p * four_weeks ≤ advance_period calendar date p)
unfolding advance_period
advance_period-IsAnniversary calendar laws date p within =
    let (u, e) = within date (omega arith) in
    let long = laws.months_long (months_in p) date u e in
    elim (Bool-cases (calendar.day u == calendar.day date)) [
      | inl same ↦
          rw (e, same) (inl ((==_iff (calendar.day u) (calendar.day date)).0 same), omega arith)
      | inr other ↦
          rw (e, other)
            (elim (laws.same_or_last (months_in p) date u e) [
              | inl day ↦ ground (arith, (==_iff (calendar.day u) (calendar.day date)).1 day)
              | inr first ↦ (inr first, omega arith)
            ])
    ]

pub advance_period-later :
    (calendar : Calendar) (laws : CalendarLaws calendar) (date : ℕ) (p : MembershipPeriod)
    → IsInRange calendar p date
    → date + four_weeks ≤ advance_period calendar date p
advance_period-later calendar laws date p within =
    let (day, late) = advance_period-IsAnniversary calendar laws date p within in
    let months = months-positive p in
    elim (p) [ monthly ↦ ground arith | quarterly ↦ ground arith | yearly ↦ ground arith ]
