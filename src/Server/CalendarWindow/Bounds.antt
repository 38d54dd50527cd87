-- ===== src/Server/CalendarWindow/Bounds.antt =====
-- server/src/calendar/window.rs, `bounds`: which windows and which errors come out.
use cooperative_systems_spac.Prelude.{
  ℕ, ◌≡◌, refl, ◌<◌, false, Option, some, String, leb, ◌↔◌, arith, inl, inr, Bool-cases,
}
use cooperative_systems_spac.Server.CalendarWindow.{
  Zone, WindowResult, ok, err, check_order, is_open_ended, window_start, window_stop, bounds,
}

-- A window of two ends in order.
abbrev IsOrdered : WindowResult ℕ → WindowResult ℕ → ℕ → ℕ → Type 0
IsOrdered from to start end = (from ≡ ok start) × (to ≡ ok end) × (start < end)

check_order-window :
    (from to : WindowResult ℕ) (start end : ℕ)
    → check_order from to ≡ ok (some (start, end))
    → IsOrdered from to start end
unfolding check_order
check_order-window (err e) to start end h = cc
check_order-window (ok s) (err e) start end h = cc
check_order-window (ok s) (ok t) start end h = elim (Bool-cases (leb t s)) [
  | inl late ↦ cc (rw (late, check_order) at h)
  | inr fine ↦
      let pair : ok (some (s, t)) ≡ ok (some (start, end)) = rw (fine, check_order) at h in
      let starts : s ≡ start = cc pair in
      let ends : t ≡ end = cc pair in (cc starts, cc ends, rw (← starts, ← ends) (ground arith))
]

window-check_order :
    (from to : WindowResult ℕ) (start end : ℕ)
    → IsOrdered from to start end
    → check_order from to ≡ ok (some (start, end))
unfolding check_order
window-check_order from to start end (starts, ends, order) =
    let fine : leb end start ≡ false = ground arith in
    rw (starts, ends) (rw (fine, check_order) refl)

module _ (zone : Zone) where
  -- With a date given, a window comes out exactly when both ends can be read and the start is before
  -- the end, and it is those two.
  pub bounds-window_iff :
      (from to : Option String) (lookahead_days now start end : ℕ)
      → is_open_ended zone from to ≡ false
      → (bounds zone from to lookahead_days now ≡ ok (some (start, end))) ↔ (
          (window_start zone from now ≡ ok start)
          × (window_stop zone to lookahead_days now ≡ ok end)
          × (start < end))
  unfolding bounds
  bounds-window_iff from to lookahead_days now start end named = (
    λ h. check_order-window _ _ start end (rw (named, bounds) at h),
    λ h. rw (named, bounds) (window-check_order _ _ start end h),
  )
