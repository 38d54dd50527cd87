-- ===== src/Edge/Modules/Watchdog/Stages.antt =====
-- edge/src/modules.rs, `tick`: when a power binding of an allowed tool is due.
use cooperative_systems_spac.Prelude.{
  ℕ, ◌+◌, ◌-◌, ◌≤◌, ◌≡◌, refl, true, false, some, List, [], ◌∷◌, max, if◌then◌else◌, filter, ℤ,
  pos_part, leb_ℤ, ltb_ℤ, All, arith, inl, inr, ◌↔◌, Bool-cases, Option-cases,
}
use mathlib.Core.List.{foldl}
use cooperative_systems_spac.CssLib.Wire.{DeviceBinding}
use cooperative_systems_spac.Edge.Modules.{millis}
use cooperative_systems_spac.Edge.Modules.Watchdog.{
  Relays, confirmed_on_at, first_stage, latest_confirmation, start_base, is_due,
}

-- The device's relay was reported closed, at a time since the allow that is at most `by`.
pub record IsConfirmed (relays : Relays) (since by : ℕ) (e : DeviceBinding) : Type 0 where
  pub at : ℕ
  pub reported : relays e.device_id ≡ some (true, at)
  pub recent : since ≤ at
  pub early : at ≤ by

confirmed_on_at-IsConfirmed :
    (relays : Relays) (e : DeviceBinding) (since at by : ℕ)
    → confirmed_on_at relays e since ≡ some at
    → at ≤ by
    → IsConfirmed relays since by e
unfolding confirmed_on_at
confirmed_on_at-IsConfirmed relays e since at by h le = elim (Option-cases (relays e.device_id)) [
  | inl n ↦ ground arith
  | inr ((true, t), r) ↦ record {
    at = t;
    reported = r;
    recent = ground arith;
    early = ground arith;
  }
  | inr ((false, t), r) ↦ ground arith
]

IsConfirmed-confirmed_on_at :
    (relays : Relays) (e : DeviceBinding) (since by : ℕ) (c : IsConfirmed relays since by e)
    → confirmed_on_at relays e since ≡ some c.at
unfolding confirmed_on_at
IsConfirmed-confirmed_on_at relays e since by c = ground (arith, c.reported, c.recent)

-- The latest confirmation is at most `by` exactly when `base` and all the confirmations are.
latest_iff :
    (relays : Relays) (since base by : ℕ) (es : List DeviceBinding)
    → ((t : ℕ) × (latest_confirmation relays since base es ≡ some t) × (t ≤ by))
      ↔ ((base ≤ by) × All (IsConfirmed relays since by) es)
unfolding latest_confirmation
latest_iff relays since base by [] = (λ (t, e, le). (ground arith, tt), λ (le, _). (base, refl, le))
latest_iff relays since base by (e ∷ es) = elim (Option-cases (confirmed_on_at relays e since)) [
  | inl n ↦ (
    λ (t, h, le). ground arith,
    λ (le, c). let found = IsConfirmed-confirmed_on_at relays e since by c.0 in ground arith,
  )
  | inr (at, s) ↦
      let rest = latest_iff relays since (max base at) by es in
      (
        λ (t, h, le).
            let r = rest.0 (t, ground arith, le) in
            let c = confirmed_on_at-IsConfirmed relays e since at by s (ground (arith, r.0)) in
            (ground (arith, r.0), (c, r.1)),
        λ (le, c).
            let found = IsConfirmed-confirmed_on_at relays e since by c.0 in
            let r = rest.1 (ground (arith, c.0.early), c.1) in (r.0, ground (arith, r.1), r.2),
      )
]

-- The bindings in lower stages.
abbrev pub lower : DeviceBinding → List DeviceBinding → List DeviceBinding
lower b power = filter (λ (e : DeviceBinding). ltb_ℤ e.start_stage b.start_stage) power

least-lower :
    (b : DeviceBinding) (m : ℤ) (bs : List DeviceBinding)
    → leb_ℤ b.start_stage (
        foldl
          (λ (m : ℤ) (x : DeviceBinding). if leb_ℤ m x.start_stage then m else x.start_stage)
          m
          bs)
      ≡ true
    → (leb_ℤ b.start_stage m ≡ true) × (lower b bs ≡ [])
least-lower b m [] h = (h, refl)
least-lower b m (x ∷ bs) h =
    let rest = least-lower b (if leb_ℤ m x.start_stage then m else x.start_stage) bs h in
    (ground (arith, rest.0), ground (arith, rest.0, rest.1))

-- A binding in the first stage has none below it.
first_stage-lower :
    (b : DeviceBinding) (power : List DeviceBinding)
    → leb_ℤ b.start_stage (first_stage power) ≡ true
    → lower b power ≡ []
unfolding first_stage
first_stage-lower b [] h = refl
first_stage-lower b (x ∷ bs) h =
    let r = least-lower b x.start_stage bs h in ground (arith, r.0, r.1)

start_base_iff :
    (relays : Relays) (power : List DeviceBinding) (since by : ℕ) (b : DeviceBinding)
    → ((t : ℕ) × (start_base relays power since b ≡ some t) × (t ≤ by))
      ↔ ((since ≤ by) × All (IsConfirmed relays since by) (lower b power))
unfolding start_base
start_base_iff relays power since by b =
    elim (Bool-cases (leb_ℤ b.start_stage (first_stage power))) [
      | inl first ↦ rw first (
          rw (first_stage-lower b power first)
            (λ (t, e, le). (ground arith, tt), λ (le, _). (since, refl, le)))
      | inr later ↦ rw later (latest_iff relays since since by (lower b power))
    ]

-- A binding of a tool that has been allowed since `since` is due exactly when its start delay has
-- passed since then and, for each binding in a lower stage, since a report that the device's relay
-- is closed which is not older than the allow and is the device's latest.
pub is_due_iff :
    (relays : Relays) (power : List DeviceBinding) (since now : ℕ) (b : DeviceBinding)
    → (is_due relays power since now b ≡ true) ↔ (
        (since + millis (pos_part b.start_delay_ms) ≤ now)
        × All (IsConfirmed relays since (now - millis (pos_part b.start_delay_ms))) (lower b power))
unfolding is_due
is_due_iff relays power since now b =
    let delay = millis (pos_part b.start_delay_ms) in
    let base = start_base_iff relays power since (now - delay) b in
    (
      λ h. elim (Option-cases (start_base relays power since b)) [
        | inl n ↦ ground arith
        | inr (t, s) ↦ let r = base.0 (t, s, ground arith) in (ground (arith, r.0), r.1)
      ],
      λ (le, cs). let (t, s, by) = base.1 (omega arith, cs) in ground (arith, s, by),
    )
