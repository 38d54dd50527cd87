-- ===== src/Server/Schedules/Hold.antt =====
-- `active_until` of server/src/schedules.rs against `matches_at`, over a time zone that obeys the
-- laws chrono documents.
use cooperative_systems_spac.Prelude.{
  ℕ, ◌+◌, ◌-◌, ◌*◌, ◌<◌, ◌≡◌, ◌≢◌, refl, ap, ◌∙◌, sym, Bool, true, false, ◌&&◌, none, some, List,
  arith, ltb, ◌==◌, nat_eq, all, all_at, In_of_any,
}
use cooperative_systems_spac.Server.Schedules.{
  DayOfWeek, day_index, day_eq, ScheduleInterval, Tz, LocalResult, single, ambiguous, nonexistent,
  day_ns, covers, window_end, active_until, anchor, matches_at, from_chrono,
}
use cooperative_systems_spac.Server.Schedules.Window.{
  is_open, IsWindow, window_end-IsWindow, window_end-none_iff,
}

-- What chrono promises of a zone: an instant that it finds for a civil time reads back as that
-- time, a time of day is less than a day, and the date decides the weekday.
pub record TzLaws (tz : Tz) : Type 0 where
  pub reads_single :
      (n i : ℕ) → tz.from_local_datetime n ≡ single i → tz.date i * day_ns + tz.time i ≡ n
  pub reads_ambiguous :
      (n i j : ℕ) → tz.from_local_datetime n ≡ ambiguous i j → tz.date i * day_ns + tz.time i ≡ n
  pub time_of_day : (i : ℕ) → tz.time i < day_ns
  pub weekday_of_date : (i j : ℕ) → tz.date i ≡ tz.date j → tz.weekday i ≡ tz.weekday j

-- An interval as "%H:%M" texts give it: it ends within its day.
abbrev pub ends_in_day : ScheduleInterval → Bool
ends_in_day iv = ltb iv.end day_ns

matches_at-is_open :
    (ivs : List ScheduleInterval) (tz : Tz) (ts : ℕ)
    → matches_at ivs tz ts ≡ is_open ivs (from_chrono (tz.weekday ts)) (tz.time ts)
unfolding matches_at
matches_at-is_open ivs tz ts = refl

-- A window that is open within the day ends within the day.
IsWindow-end :
    {ivs : List ScheduleInterval} {dow : DayOfWeek} {now end : ℕ}
    → all ends_in_day ivs ≡ true
    → IsWindow ivs dow now end
    → end < day_ns
IsWindow-end {ivs} {dow} {now} {end} ends w =
    let last = w.held (end - 1) (omega (arith, w.ahead)) (omega (arith, w.ahead)) in
    let (iv, m, c) =
      In_of_any (λ x. day_index x.day == day_index dow && covers (end - 1) x) ivs last in
    let within = all_at ends_in_day ivs ends m in ground (arith, c, within, w.ahead)

module _ (ivs : List ScheduleInterval) (tz : Tz) (ts : ℕ) where
  -- The civil date-time at which the window found now ends.
  abbrev civil_end : ℕ → ℕ
  civil_end end = tz.date ts * day_ns + end

  active_until-eq :
      {end : ℕ}
      → window_end ivs (from_chrono (tz.weekday ts)) (tz.time ts) ≡ some end
      → active_until ivs tz ts ≡ anchor tz (civil_end end) (tz.from_local_datetime (civil_end end))
  unfolding active_until
  active_until-eq h = rw (h, active_until)

  -- Outside every window there is no end to answer with.
  pub active_until-closed : matches_at ivs tz ts ≡ false → active_until ivs tz ts ≡ none
  unfolding active_until
  active_until-closed h = rw (
    (window_end-none_iff ivs (from_chrono (tz.weekday ts)) (tz.time ts)).1
        (sym (matches_at-is_open ivs tz ts) ∙ h),
    active_until,
  )

  module _ (laws : TzLaws tz) (ends : all ends_in_day ivs ≡ true) where
    -- At the instant of a civil end nothing matches any more.
    matches_at-end :
        (end i : ℕ)
        → IsWindow ivs (from_chrono (tz.weekday ts)) (tz.time ts) end
        → tz.date i * day_ns + tz.time i ≡ civil_end end
        → matches_at ivs tz i ≡ false
    matches_at-end end i w read =
        let short = IsWindow-end ends w in
        let same_date : tz.date i ≡ tz.date ts = omega (arith, read, short, laws.time_of_day i) in
        let same_time : tz.time i ≡ end = omega (arith, read, short, laws.time_of_day i) in
        matches_at-is_open ivs tz i
        ∙ ap (λ d. is_open ivs (from_chrono d) (tz.time i)) (laws.weekday_of_date i ts same_date)
        ∙ ap (is_open ivs (from_chrono (tz.weekday ts))) same_time
        ∙ w.closed

    -- While a window is open, and its end is a civil time that exists, the answer is an instant at
    -- which no window is open any more.
    pub active_until-closes :
        (end : ℕ)
        → window_end ivs (from_chrono (tz.weekday ts)) (tz.time ts) ≡ some end
        → tz.from_local_datetime (tz.date ts * day_ns + end) ≢ nonexistent
        → (i : ℕ) × (active_until ivs tz ts ≡ some i) × (matches_at ivs tz i ≡ false)
    active_until-closes end h exists = go (tz.from_local_datetime (civil_end end)) refl
      where
        w : IsWindow ivs (from_chrono (tz.weekday ts)) (tz.time ts) end
        w = window_end-IsWindow ivs (from_chrono (tz.weekday ts)) (tz.time ts) h

        go :
            (r : LocalResult)
            → tz.from_local_datetime (civil_end end) ≡ r
            → (i : ℕ) × (active_until ivs tz ts ≡ some i) × (matches_at ivs tz i ≡ false)
        go (single i) e = (
          i,
          active_until-eq h ∙ rw e (unfold anchor in refl),
          matches_at-end end i w (laws.reads_single _ i e),
        )
        go (ambiguous i j) e = (
          i,
          active_until-eq h ∙ rw e (unfold anchor in refl),
          matches_at-end end i w (laws.reads_ambiguous _ i j e),
        )
        go nonexistent e = absurd (exists e)
