-- ===== src/CssLib/Bypass.antt =====
-- css_lib/src/bypass.rs: when a sweep records a change, and when power counts as unauthorized.
use cooperative_systems_spac.Prelude.{
  ℤ, Bool, true, false, not, ◌||◌, Option, none, some, ltb_ℤ, leb_ℤ, if◌then◌else◌,
}

pub data LivenessTransition : Type 0 where
  went_silent returned no_change : LivenessTransition

-- A module that was never seen counts as silent.
unfoldable pub is_silent : Option ℤ → ℤ → Bool
is_silent none threshold_secs = true
is_silent (some secs) threshold_secs = ltb_ℤ threshold_secs secs

unfoldable pub classify_liveness : Option ℤ → ℤ → Bool → LivenessTransition
unfolding is_silent
classify_liveness seconds_since_seen threshold_secs previously_reported_silent =
    if is_silent seconds_since_seen threshold_secs
    then (if previously_reported_silent then no_change else went_silent)
    else (if previously_reported_silent then returned else no_change)

pub record PowerEvidence : Type 0 where
  pub relay_reported_on : Bool
  pub draw_observed : Bool

abbrev pub any_evidence : PowerEvidence → Bool
any_evidence e = e.relay_reported_on || e.draw_observed

unfoldable pub is_unauthorized_power : PowerEvidence → Bool → ℤ → ℤ → Bool
is_unauthorized_power evidence lease_valid seconds_observed debounce_secs =
    if lease_valid || not (any_evidence evidence)
    then false
    else leb_ℤ debounce_secs seconds_observed
