-- ===== src/Server/Access/Precedence.antt =====
-- What decides `may` of server/src/access_engine.rs: the rules as a whole, whatever their order.
use cooperative_systems_spac.Prelude.{
  ℕ, ◌≡◌, refl, ◌∙◌, Bool, true, false, ◌&&◌, ◌||◌, not, Option, none, some, List, [], ◌∷◌,
  if◌then◌else◌, arith, ◌↔◌, ◌⊎◌, inl, inr, any, any_mono, Bool-cases, filter, find, ◌==◌, nat_eq,
  ==_iff,
}
use mathlib.Core.List.{foldl}
use cooperative_systems_spac.Server.Rbac.{RoleGraph}
use cooperative_systems_spac.Server.Rules.{
  DoorRuleEffect, AccessRule, UuidText, Clockwork, Schedule, ScheduleState, schedule_state_at,
  intervals_of, rule_fires, active, unresolvable, window_state,
}
use cooperative_systems_spac.Server.Access.{
  Action, needs_identity, Decision, Principal, ResourcePolicy, is_false, rule_matches, note_match,
  match_rules, default_open, grant, may, ToolFacts, user_is_authorized_for_tool, is_allow,
}

module _ (uuid : UuidText) (graph : RoleGraph) (principal : Principal) where
  module _ {ℓ} {Json : Type ℓ} (clock : Clockwork Json) where
    -- A rule matches, is in force, and has the effect.
    abbrev pub allows : AccessRule → Bool
    allows r = elim (rule_matches uuid graph principal clock r) [
      | some DoorRuleEffect.allow ↦ true
      | _ ↦ false
    ]

    abbrev pub denies : AccessRule → Bool
    denies r = elim (rule_matches uuid graph principal clock r) [
      | some DoorRuleEffect.deny ↦ true
      | _ ↦ false
    ]

    match_from :
        (rules : List AccessRule) (a d : Bool)
        → foldl (note_match uuid graph principal clock) (a, d) rules
          ≡ (a || any allows rules, d || any denies rules)
    unfolding note_match
    match_from [] a d = ground arith
    match_from (r ∷ rules) a d =
        match_from rules (note_match uuid graph principal clock (a, d) r).0
          (note_match uuid graph principal clock (a, d) r).1
        ∙ ground arith

    pub match_rules-eq-any :
        (rules : List AccessRule)
        → match_rules uuid graph principal clock rules ≡ (any allows rules, any denies rules)
    unfolding match_rules
    match_rules-eq-any rules = match_from rules false false

    -- All that an `allow` takes.
    pub record IsGranted (policy : ResourcePolicy) (rules : List AccessRule) (action : Action)
        : Type 0 where
      pub not_locked : policy.locked_out ≡ false
      pub available : policy.unavailable ≡ none
      pub identified : (needs_identity action && not principal.is_active) ≡ false
      pub not_denied : any denies rules ≡ false
      pub granted : (any allows rules || default_open uuid graph principal clock policy) ≡ true
      pub trained : is_false policy.training_ok ≡ false
      pub billable : is_false policy.metered_ok ≡ false

    -- `may` allows exactly when the resource is neither locked out nor unavailable, the principal is
    -- active where the action needs that, no rule in force denies the principal, some rule in force
    -- allows the principal or the resource is open by default within its schedule, and neither
    -- training nor billing refuses.
    pub may-allow_iff :
        (policy : ResourcePolicy) (rules : List AccessRule) (action : Action)
        → (may uuid graph principal clock policy rules action ≡ Decision.allow)
          ↔ IsGranted policy rules action
    unfolding may
    may-allow_iff policy rules action = (
      λ h. ground (arith, match_rules-eq-any rules),
      λ g. ground (arith, match_rules-eq-any rules),
    )

-- The snapshot of schedules without those whose id `keep` refuses.
abbrev pub drop_schedules {ℓ} : {Json : Type ℓ} → (ℕ → Bool) → Clockwork Json → Clockwork Json
drop_schedules keep clock = record clock { schedules = filter (λ s. keep s.id) clock.schedules }

module _ {ℓ} {Json : Type ℓ} (keep : ℕ → Bool) where
  -- A row that was dropped is not found; any other is found as before.
  find-filter_id :
      (sid : ℕ) (rows : List (Schedule Json))
      → find (λ (s : Schedule Json). s.id == sid) (filter (λ (s : Schedule Json). keep s.id) rows)
        ≡ (if keep sid then find (λ (s : Schedule Json). s.id == sid) rows else none)
  find-filter_id sid [] = ground arith
  find-filter_id sid (r ∷ rows) = elim (Bool-cases (r.id == sid)) [
    | inl same ↦
        let e : r.id ≡ sid = (==_iff r.id sid).0 same in ground (arith, e, find-filter_id sid rows)
    | inr other ↦ ground (arith, find-filter_id sid rows)
  ]

  intervals_of-drop :
      (clock : Clockwork Json) (sid : ℕ)
      → intervals_of (drop_schedules keep clock) sid
        ≡ (if keep sid then intervals_of clock sid else none)
  unfolding intervals_of
  intervals_of-drop clock sid = elim (Bool-cases (keep sid)) [
    | inl k ↦ rw (find-filter_id sid clock.schedules, intervals_of) (rw k refl)
    | inr k ↦ rw (find-filter_id sid clock.schedules, intervals_of) (rw k refl)
  ]

  -- Without its row a schedule is unresolvable; with it, nothing changes.
  state-drop :
      (clock : Clockwork Json) (sid : Option ℕ)
      → (schedule_state_at (drop_schedules keep clock) sid ≡ schedule_state_at clock sid)
        ⊎ (schedule_state_at (drop_schedules keep clock) sid ≡ unresolvable)
  unfolding schedule_state_at
  state-drop clock none = inl refl
  state-drop clock (some sid) = elim (Bool-cases (keep sid)) [
    | inl k ↦ inl (rw (intervals_of-drop clock sid) (rw k (unfold window_state in refl)))
    | inr k ↦ inr (rw (intervals_of-drop clock sid) (rw k (unfold window_state in refl)))
  ]

fires_allow : (s : ScheduleState) → rule_fires DoorRuleEffect.allow s ≡ true → s ≡ active
unfolding rule_fires
fires_allow s h = ground arith

module _ {ℓ} {Json : Type ℓ} (uuid : UuidText) (graph : RoleGraph) (principal : Principal)
    (keep : ℕ → Bool) (clock : Clockwork Json) where
  -- An allow that fires without the dropped rows fires with them, and a deny that fires with them
  -- fires without.
  fires-drop_allow :
      (sid : Option ℕ)
      → rule_fires DoorRuleEffect.allow (schedule_state_at (drop_schedules keep clock) sid) ≡ true
      → rule_fires DoorRuleEffect.allow (schedule_state_at clock sid) ≡ true
  unfolding rule_fires
  fires-drop_allow sid h = elim (state-drop keep clock sid) [
    | inl same ↦ rw same at h
    | inr lost ↦ let h' : false ≡ true = rw lost at h in cc
  ]

  fires-drop_deny :
      (sid : Option ℕ)
      → rule_fires DoorRuleEffect.deny (schedule_state_at clock sid) ≡ true
      → rule_fires DoorRuleEffect.deny (schedule_state_at (drop_schedules keep clock) sid) ≡ true
  unfolding rule_fires
  fires-drop_deny sid h = elim (state-drop keep clock sid) [
    | inl same ↦ rw same h
    | inr lost ↦ rw lost refl
  ]

  allows-drop :
      (r : AccessRule)
      → allows uuid graph principal (drop_schedules keep clock) r ≡ true
      → allows uuid graph principal clock r ≡ true
  unfolding rule_matches
  allows-drop r h = ground (arith, fires-drop_allow r.schedule_id)

  denies-drop :
      (r : AccessRule)
      → denies uuid graph principal clock r ≡ true
      → denies uuid graph principal (drop_schedules keep clock) r ≡ true
  unfolding rule_matches
  denies-drop r h = ground (arith, fires-drop_deny r.schedule_id)

  default_open-drop :
      (policy : ResourcePolicy)
      → default_open uuid graph principal (drop_schedules keep clock) policy ≡ true
      → default_open uuid graph principal clock policy ≡ true
  unfolding default_open
  default_open-drop policy h = ground (arith, fires-drop_allow policy.schedule_id)

  -- Losing rows of the schedules table never opens a resource.
  pub may-drop_schedules :
      (policy : ResourcePolicy) (rules : List AccessRule) (action : Action)
      → may uuid graph principal (drop_schedules keep clock) policy rules action ≡ Decision.allow
      → may uuid graph principal clock policy rules action ≡ Decision.allow
  may-drop_schedules policy rules action h =
      let g =
        (may-allow_iff uuid graph principal (drop_schedules keep clock) policy rules action).0 h in
      (may-allow_iff uuid graph principal clock policy rules action).1 (record {
        not_locked = g.not_locked;
        available = g.available;
        identified = g.identified;
        not_denied = elim (Bool-cases (any (denies uuid graph principal clock) rules)) [
          | inr e ↦ e
          | inl e ↦ cc (any_mono _ _ denies-drop rules e, g.not_denied)
        ];
        granted =
            ground (arith, g.granted, any_mono _ _ allows-drop rules, default_open-drop policy);
        trained = g.trained;
        billable = g.billable;
      })

-- The tool path authorizes exactly when the tool is not locked out and is either ungated (no steps
-- and no required training), or waived for the user, or has steps that the user has all completed.
pub user_is_authorized_for_tool-eq {ℓ} :
    {Json : Type ℓ} (uuid : UuidText) (clock : Clockwork Json) (user_id : ℕ) (t : ToolFacts)
    → user_is_authorized_for_tool uuid clock user_id t ≡ (
        not t.locked_out
        && ((not t.has_steps && not t.requires_training)
            || (t.has_active_waiver || (t.has_steps && t.completed_all_steps))))
unfolding user_is_authorized_for_tool may grant default_open match_rules schedule_state_at
    rule_fires is_allow
user_is_authorized_for_tool-eq uuid clock user_id t = ground arith
