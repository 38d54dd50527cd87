-- ===== src/Edge/Resources/Cadence.antt =====
-- edge/src/resources.rs: which hold pulses a pass of the loop sends.
use cooperative_systems_spac.Prelude.{
  ℕ, ◌+◌, ◌≡◌, refl, ap, Bool, true, none, some, List, [], ◌∷◌, leb, ◌==◌, nat_eq, ==_iff, Map,
  insert, retain, is_none_or, filter, filter_map, any, arith, ℤ, inl, inr, Option-cases, Bool-cases,
  In, Any, In-cons, any_of_In, ==_refl,
}
use cooperative_systems_spac.Edge.Resources.{Entry, Policy}
use cooperative_systems_spac.Edge.Resources.Holds.{
  hold_pulse_ms, hold_pulses_at, send_holds, tick_holds,
}

-- The door was not sent a pulse for the length of the refresh.
abbrev pub rested : ℕ → ℕ → Map ℕ ℕ → ℕ → Bool
rested now refresh sent door = is_none_or (λ last. leb (last + refresh) now) (sent door)

rested-before :
    (now refresh : ℕ) (sent : Map ℕ ℕ) (door d : ℕ)
    → rested now refresh sent door ≡ true
    → rested now refresh (insert door now sent) d ≡ true
    → rested now refresh sent d ≡ true
rested-before now refresh sent door d due h = elim (Bool-cases (door == d)) [
  | inl same ↦ let e : door ≡ d = (==_iff door d).0 same in rw e at due
  | inr other ↦ rw other at h
]

send_holds-In :
    (now refresh : ℕ) (held : List (ℕ × ℤ)) (sent : Map ℕ ℕ) (x : ℕ × ℤ)
    → In x (send_holds now refresh held sent).1
    → In x held × (rested now refresh sent x.0 ≡ true)
unfolding send_holds
send_holds-In now refresh [] sent x m = elim m [ ]
send_holds-In now refresh ((door, ms) ∷ held) sent x m =
    elim (Bool-cases (rested now refresh sent door)) [
      | inl due ↦ elim (In-cons (rw due at m)) [
        | inl e ↦ let same : door ≡ x.0 = ap (λ (p : ℕ × ℤ). p.0) e in (Any.head e, rw same at due)
        | inr t ↦
            let r = send_holds-In now refresh held (insert door now sent) x t in
            (Any.tail r.0, rested-before now refresh sent door x.0 due r.1)
      ]
      | inr early ↦
          let r = send_holds-In now refresh held sent x (rw early at m) in (Any.tail r.0, r.1)
    ]

-- An enabled entry of the policy, with the pulse that its window gives.
abbrev pub IsHold : Policy → ℕ → ℕ → ℕ × ℤ → Type 0
IsHold p now refresh x =
    (e : Entry) × In e p.entries
    × (e.enabled ≡ true)
    × (e.id ≡ x.0)
    × (hold_pulse_ms e.hold_until now refresh ≡ some x.1)

hold_pulses-of :
    (now refresh : ℕ) (entries : List Entry) (x : ℕ × ℤ)
    → In x (
        filter_map
          (λ (e : Entry). elim (hold_pulse_ms e.hold_until now refresh) [
            | none ↦ none
            | some ms ↦ some (e.id, ms)
          ])
          (filter (λ (e : Entry). e.enabled) entries))
    → (e : Entry) × In e entries
      × (e.enabled ≡ true)
      × (e.id ≡ x.0)
      × (hold_pulse_ms e.hold_until now refresh ≡ some x.1)
hold_pulses-of now refresh [] x m = elim m [ ]
hold_pulses-of now refresh (e ∷ entries) x m = elim (Bool-cases e.enabled) [
  | inr off ↦
      let (f, i, u, v, r) = hold_pulses-of now refresh entries x (rw off at m) in
      (f, Any.tail i, u, v, r)
  | inl on ↦ elim (Option-cases (hold_pulse_ms e.hold_until now refresh)) [
    | inl n ↦
        let (f, i, u, v, r) =
          hold_pulses-of now refresh entries x (rw (n, filter_map) at (rw on at m)) in
        (f, Any.tail i, u, v, r)
    | inr (ms, h) ↦ elim (In-cons (rw (h, filter_map) at (rw on at m))) [
      | inl same ↦
          let id : e.id ≡ x.0 = ap (λ (p : ℕ × ℤ). p.0) same in
          let pulse : ms ≡ x.1 = ap (λ (p : ℕ × ℤ). p.1) same in
          (e, Any.head refl, on, id, rw pulse at h)
      | inr t ↦
          let (f, i, u, v, r) = hold_pulses-of now refresh entries x t in (f, Any.tail i, u, v, r)
    ]
  ]
]

-- A pulse that a pass sends is for an enabled entry of the policy, is the one that the entry's window
-- gives now, and goes to a door that was never sent one before or not for the length of the refresh.
pub tick_holds-IsHold :
    (p : Policy) (now refresh : ℕ) (sent : Map ℕ ℕ) (x : ℕ × ℤ)
    → In x (tick_holds p now refresh sent).1
    → IsHold p now refresh x × (rested now refresh sent x.0 ≡ true)
unfolding tick_holds hold_pulses_at
tick_holds-IsHold p now refresh sent x m =
    let held = hold_pulses_at p now refresh in
    let kept = retain (λ door _. any (λ (h : ℕ × ℤ). h.0 == door) held) sent in
    let (i, due) = send_holds-In now refresh held kept x m in
    let listed = any_of_In (λ (h : ℕ × ℤ). h.0 == x.0) held i (==_refl x.0) in
    (hold_pulses-of now refresh p.entries x i, ground (arith, due, listed))
