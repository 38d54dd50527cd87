-- ===== src/Server/Rules/OpenHold.antt =====
-- The Open Access hold of server/src/doors.rs: the latest end among the rules that hold the door.
use cooperative_systems_spac.Prelude.{
  ℕ, ◌≤◌, ◌≡◌, refl, ap, ◌∙◌, Bool, true, false, Option, none, some, List, [], ◌∷◌, if◌then◌else◌,
  arith, ◌⊎◌, inl, inr, In, Any, Option-cases, leb,
}
use mathlib.Core.List.{foldl}
use cooperative_systems_spac.Server.Schedules.{ScheduleInterval, matches_at, active_until}
use cooperative_systems_spac.Server.Schedules.Hold.{active_until-closed}
use cooperative_systems_spac.Server.Rules.{
  AccessRule, Clockwork, open_access, allow, parse_kind, parse_effect, intervals_of, rule_hold,
  later_hold, open_access_hold_until_at, schedule_state_at, window_state, active,
}

module _ {ℓ} {Json : Type ℓ} (clock : Clockwork Json) where
  -- `end` is where `latest` or some rule's window ends, and none of them ends later.
  record IsLatest (latest : Option ℕ) (rules : List AccessRule) (end : ℕ) : Type 0 where
    reached : (latest ≡ some end) ⊎ ((r : AccessRule) × In r rules × (rule_hold clock r ≡ some end))
    after_latest : (e : ℕ) → latest ≡ some e → e ≤ end
    after_rules : (r : AccessRule) (e : ℕ) → In r rules → rule_hold clock r ≡ some e → e ≤ end

  abbrev Latest : Option ℕ → List AccessRule → Option ℕ → Type 0
  Latest latest rules none =
      (latest ≡ none) × ((r : AccessRule) → In r rules → rule_hold clock r ≡ none)
  Latest latest rules (some end) = IsLatest latest rules end

  later_hold-cases :
      (latest : Option ℕ) (r : AccessRule)
      → ((rule_hold clock r ≡ none) × (later_hold clock latest r ≡ latest))
        ⊎ ((e : ℕ) × (m : ℕ) × (rule_hold clock r ≡ some e)
            × (later_hold clock latest r ≡ some m)
            × (e ≤ m)
            × ((m ≡ e) ⊎ (latest ≡ some m))
            × ((k : ℕ) → latest ≡ some k → k ≤ m))
  unfolding later_hold
  later_hold-cases none r = elim (Option-cases (rule_hold clock r)) [
    | inl n ↦ inl (n, rw (n, later_hold) refl)
    | inr (e, s) ↦ inr (e, e, s, rw (s, later_hold) refl, omega arith, inl refl, λ k h. cc)
  ]
  later_hold-cases (some cur) r = elim (Option-cases (rule_hold clock r)) [
    | inl n ↦ inl (n, rw (n, later_hold) refl)
    | inr (e, s) ↦ inr (
      e,
      if leb cur e then e else cur,
      s,
      rw (s, later_hold) refl,
      ground arith,
      ground arith,
      λ k h. ground arith,
    )
  ]

  Latest-skip :
      (latest : Option ℕ) (r : AccessRule) (rules : List AccessRule) (o : Option ℕ)
      → rule_hold clock r ≡ none
      → Latest latest rules o
      → Latest latest (r ∷ rules) o
  Latest-skip latest r rules none n h = (h.0, λ x m. first x m)
    where
      first : (x : AccessRule) → In x (r ∷ rules) → rule_hold clock x ≡ none
      first x (Any.head e) = rw (← e) n
      first x (Any.tail t) = h.1 x t
  Latest-skip latest r rules (some end) n h = record {
    reached = elim h.reached [ inl l ↦ inl l | inr (x, m, e) ↦ inr (x, Any.tail m, e) ];
    after_latest = h.after_latest;
    after_rules = λ x e m s. first x e m s;
  }
    where
      first : (x : AccessRule) (e : ℕ) → In x (r ∷ rules) → rule_hold clock x ≡ some e → e ≤ end
      first x e (Any.head p) s = let s' : rule_hold clock r ≡ some e = rw p s in cc
      first x e (Any.tail t) s = h.after_rules x e t s

  Latest-take :
      (latest : Option ℕ) (r : AccessRule) (rules : List AccessRule) (o : Option ℕ) (e m : ℕ)
      → rule_hold clock r ≡ some e
      → e ≤ m
      → (m ≡ e) ⊎ (latest ≡ some m)
      → ((k : ℕ) → latest ≡ some k → k ≤ m)
      → Latest (some m) rules o
      → Latest latest (r ∷ rules) o
  Latest-take latest r rules none e m s le from up h = cc (h.0)
  Latest-take latest r rules (some end) e m s le from up h = record {
    reached = elim h.reached [
      | inl p ↦ elim from [ inl q ↦ inr (r, Any.head refl, cc) | inr q ↦ inl (q ∙ p) ]
      | inr (x, i, q) ↦ inr (x, Any.tail i, q)
    ];
    after_latest = λ k p. omega (arith, up k p, h.after_latest m refl);
    after_rules = λ x k i p. first x k i p;
  }
    where
      first : (x : AccessRule) (k : ℕ) → In x (r ∷ rules) → rule_hold clock x ≡ some k → k ≤ end
      first x k (Any.head p) q =
          let q' : rule_hold clock r ≡ some k = rw p q in
          let same : e ≡ k = cc in omega (arith, h.after_latest m refl)
      first x k (Any.tail t) q = h.after_rules x k t q

  hold_from :
      (rules : List AccessRule) (latest : Option ℕ)
      → Latest latest rules (foldl (later_hold clock) latest rules)
  hold_from [] none = (refl, λ r m. elim m [ ])
  hold_from [] (some e) = record {
    reached = inl refl;
    after_latest = λ k p. ground arith;
    after_rules = λ r k m. elim m [ ];
  }
  hold_from (r ∷ rules) latest = elim (later_hold-cases latest r) [
    | inl (n, same) ↦ Latest-skip latest r rules _ n (rw same (hold_from rules latest))
    | inr (e, m, s, next, le, from, up) ↦
        Latest-take latest r rules _ e m s le from up (rw next (hold_from rules (some m)))
  ]

  -- What it takes for a rule to hold a door until `end`.
  pub record HoldsUntil (r : AccessRule) (end : ℕ) : Type 0 where
    pub is_open_access : parse_kind r.kind ≡ some open_access
    pub is_allow : parse_effect r.effect ≡ some allow
    pub in_window : schedule_state_at clock r.schedule_id ≡ active
    pub scheduled :
        (sid : ℕ) × (ivs : List ScheduleInterval) × (r.schedule_id ≡ some sid)
        × (intervals_of clock sid ≡ some ivs)
        × (active_until ivs clock.tz clock.now ≡ some end)

  rule_hold-kinds :
      (r : AccessRule) (end : ℕ)
      → rule_hold clock r ≡ some end
      → (parse_kind r.kind ≡ some open_access) × (parse_effect r.effect ≡ some allow)
  unfolding rule_hold
  rule_hold-kinds r end h = (ground arith, ground arith)

  rule_hold-schedule :
      (r : AccessRule) (end : ℕ)
      → rule_hold clock r ≡ some end
      → (sid : ℕ) × (ivs : List ScheduleInterval) × (r.schedule_id ≡ some sid)
        × (intervals_of clock sid ≡ some ivs)
        × (active_until ivs clock.tz clock.now ≡ some end)
  unfolding rule_hold
  rule_hold-schedule r end h = elim (Option-cases r.schedule_id) [
    | inl n ↦ absurd (ground (arith, n, h))
    | inr (sid, s) ↦ elim (Option-cases (intervals_of clock sid)) [
      | inl n ↦ absurd (ground (arith, s, n, h))
      | inr (ivs, p) ↦ (sid, ivs, s, p, ground (arith, s, p, h))
    ]
  ]

  active_window :
      (sid end : ℕ) (ivs : List ScheduleInterval)
      → intervals_of clock sid ≡ some ivs
      → active_until ivs clock.tz clock.now ≡ some end
      → schedule_state_at clock (some sid) ≡ active
  unfolding schedule_state_at window_state
  active_window sid end ivs p u = rw p (rw (matched (matches_at ivs clock.tz clock.now) refl) refl)
    where
      matched :
          (b : Bool)
          → matches_at ivs clock.tz clock.now ≡ b
          → matches_at ivs clock.tz clock.now ≡ true
      matched true e = e
      matched false e = cc (active_until-closed ivs clock.tz clock.now e)

  rule_hold-HoldsUntil :
      (r : AccessRule) (end : ℕ) → rule_hold clock r ≡ some end → HoldsUntil r end
  rule_hold-HoldsUntil r end h =
      let (sid, ivs, s, p, u) = rule_hold-schedule r end h in
      record {
        is_open_access = (rule_hold-kinds r end h).0;
        is_allow = (rule_hold-kinds r end h).1;
        in_window = ap (schedule_state_at clock) s ∙ active_window sid end ivs p u;
        scheduled = (sid, ivs, s, p, u);
      }

  -- The hold ends where the window of an open-access allow rule, open now, ends, and no rule's
  -- window that is open now ends later.
  pub open_access_hold_until_at-latest :
      (rules : List AccessRule) (end : ℕ)
      → open_access_hold_until_at clock rules ≡ some end
      → ((r : AccessRule) × In r rules × HoldsUntil r end)
        × ((r : AccessRule) (e : ℕ) → In r rules → rule_hold clock r ≡ some e → e ≤ end)
  unfolding open_access_hold_until_at
  open_access_hold_until_at-latest rules end h =
      let latest : IsLatest none rules end = rw h at (hold_from rules none) in
      (
        elim latest.reached [ inl p ↦ cc | inr (r, m, p) ↦ (r, m, rule_hold-HoldsUntil r end p) ],
        latest.after_rules,
      )
