-- ===== src/Edge/Resources/Holds.antt =====
-- edge/src/doors.rs, `hold_pulse_ms`, and the hold half of `ResourceCache::tick`.
use cooperative_systems_spac.Prelude.{
  ℕ, ◌+◌, ◌-◌, ◌/◌, ◌%◌, ◌≤◌, ◌<◌, ◌≡◌, refl, Option, none, some, List, [], ◌∷◌, ltb, leb,
  if◌then◌else◌, ◌==◌, nat_eq, Map, insert, retain, is_none_or, filter, filter_map, any, max, min,
  arith, ℤ, pos, negsuc, inl, inr, Bool-cases, ◌⊎◌,
}
use cooperative_systems_spac.Edge.Modules.{millis, seconds}
use cooperative_systems_spac.Edge.Resources.{Entry, Policy}

-- `HOLD_PULSE_MARGIN_SECS`
abbrev pub hold_pulse_margin_secs : ℕ
hold_pulse_margin_secs = 15

-- `as i32`, of a number that is not negative.
abbrev pub to_i32 : ℕ → ℤ
to_i32 n = let w = n % 4294967296 in if ltb w 2147483648 then pos w else negsuc (4294967295 - w)

unfoldable pub hold_pulse_ms : Option ℕ → ℕ → ℕ → Option ℤ
hold_pulse_ms none now refresh = none
hold_pulse_ms (some until) now refresh =
    if leb until now
    then none
    else some
        (to_i32 (max ((min (refresh + seconds hold_pulse_margin_secs) (until - now)) / 1000000) 1))

unfoldable pub hold_pulses_at : Policy → ℕ → ℕ → List (ℕ × ℤ)
unfolding hold_pulse_ms
hold_pulses_at p now refresh =
    filter_map
      (λ (e : Entry). elim (hold_pulse_ms e.hold_until now refresh) [
        | none ↦ none
        | some ms ↦ some (e.id, ms)
      ])
      (filter (λ (e : Entry). e.enabled) p.entries)

-- The loop over the held doors: what is sent, and when each was last sent.
unfoldable pub send_holds : ℕ → ℕ → List (ℕ × ℤ) → Map ℕ ℕ → Map ℕ ℕ × List (ℕ × ℤ)
send_holds now refresh [] sent = (sent, [])
send_holds now refresh ((door, ms) ∷ held) sent =
    let due = is_none_or (λ last. leb (last + refresh) now) (sent door) in
    let rest = send_holds now refresh held (if due then insert door now sent else sent) in
    (rest.0, if due then (door, ms) ∷ rest.1 else rest.1)

unfoldable pub tick_holds : Policy → ℕ → ℕ → Map ℕ ℕ → Map ℕ ℕ × List (ℕ × ℤ)
unfolding hold_pulses_at send_holds
tick_holds p now refresh sent =
    let held = hold_pulses_at p now refresh in
    send_holds now refresh held (retain (λ door _. any (λ (h : ℕ × ℤ). h.0 == door) held) sent)

-- A pulse in milliseconds is at least 1, outlasts neither the refresh and its margin nor, unless it
-- is that 1, the window.
pub record IsPulse (until now refresh : ℕ) (ms : ℤ) : Type 0 where
  pub length_ms : ℕ
  pub is_length : ms ≡ pos length_ms
  pub positive : 1 ≤ length_ms
  pub short : millis length_ms ≤ refresh + seconds hold_pulse_margin_secs
  pub within : (now + millis length_ms ≤ until) ⊎ (length_ms ≡ 1)

-- With a refresh interval of at most a day, there is a pulse exactly while a window is live; it is
-- positive, no longer than the refresh interval and its margin, and ends by the window's end unless
-- it is the shortest, of one millisecond.
pub hold_pulse_ms-IsPulse :
    (until now refresh : ℕ)
    → refresh ≤ seconds 86400
    → ((until ≤ now) × (hold_pulse_ms (some until) now refresh ≡ none))
      ⊎ ((ms : ℤ) × (now < until)
          × (hold_pulse_ms (some until) now refresh ≡ some ms)
          × IsPulse until now refresh ms)
unfolding hold_pulse_ms
hold_pulse_ms-IsPulse until now refresh small = elim (Bool-cases (leb until now)) [
  | inl over ↦ inl (ground arith, ground arith)
  | inr live ↦
      let pulse = min (refresh + seconds hold_pulse_margin_secs) (until - now) in
      let bounded : pulse ≤ seconds 86415 = ground arith in
      let long = max (pulse / 1000000) 1 in
      let fits : (1 ≤ long) × (long < 2147483648) = ground arith in
      inr (
        pos long,
        ground arith,
        ground arith,
        record {
          length_ms = long;
          is_length = refl;
          positive = fits.0;
          short = ground arith;
          within = ground arith;
        },
      )
]
