-- ===== src/Server/Access/Snapshot.antt =====
-- The QR path (`DoorService::evaluate`) against the compiled snapshot (`expand_rules_at`): both read
-- the same rules, one by user and one by card (server/src/doors.rs, server/src/access_engine.rs).
use cooperative_systems_spac.Prelude.{
  ℕ, ◌≡◌, ◌≢◌, refl, sym, ◌∙◌, ap, Bool, true, false, ◌&&◌, ◌||◌, none, some, List, [], ◌∷◌, String,
  ℤ, pos, leb_ℤ, arith, ◌↔◌, inl, inr, any, contains, Bool-cases, Option-cases, ◌==◌, nat_eq,
  string_eq, ==_iff, ==_refl, ==_sym, ==_ne, Assoc, lookup, unwrap_or, is_some, All,
}
use mathlib.Core.Path.{ap₂}
use cooperative_systems_spac.Server.Rbac.{RoleGraph, level_of_name}
use cooperative_systems_spac.Server.Rules.{
  DoorRuleEffect, DoorRuleKind, role, user, card, open_access, AccessRule, UuidText, Clockwork,
  Roster, parse_kind, parse_effect, rule_fires, schedule_state_at, cards_of, holds_at_level,
  expand_rules_at,
}
use cooperative_systems_spac.Server.Rules.Expansion.{puts, expand_rules_at-eq-any}
use cooperative_systems_spac.Server.Access.{
  Action, Principal, Decision, AccessDecision, kind_matches, rule_matches, match_rules, note_match,
  evaluate, may, door_policy, to_message, default_open,
}
use cooperative_systems_spac.Server.Access.Precedence.{allows, denies, may-allow_iff}

-- The card is in the roster, and it is `uid`'s alone.
pub record IsSoleHolder (roster : Roster) (uid : ℕ) (c : String) : Type 0 where
  pub held : (cards : List String) × (lookup uid roster.cards_by_user ≡ some cards)
  pub alone : All (λ (e : ℕ × List String). contains e.1 c ≡ (e.0 == uid)) roster.cards_by_user

-- The rule names its user in the spelling that `to_string` gives.
pub record IsCanonical (uuid : UuidText) (r : AccessRule) : Type 0 where
  pub spelled : (u : ℕ) → uuid.parse_str r.value ≡ some u → uuid.to_string u ≡ r.value

-- The holder of one card, as `evaluate` materializes it.
abbrev pub card_holder : Roster → ℕ → String → Principal
card_holder roster uid c = record {
  user_id = some uid;
  level = unwrap_or (pos 0) (roster.user_levels uid);
  card_digests = λ v. c == v;
  is_active = true;
}

lookup-alone :
    (uid : ℕ) (c : String) (m : Assoc ℕ (List String)) (u : ℕ) (cards : List String)
    → All (λ (e : ℕ × List String). contains e.1 c ≡ (e.0 == uid)) m
    → lookup u m ≡ some cards
    → contains cards c ≡ (u == uid)
lookup-alone uid c [] u cards h e = cc
lookup-alone uid c ((k, v) ∷ m) u cards h e = elim (Bool-cases (k == u)) [
  | inl same ↦
      let k=u : k ≡ u = (==_iff k u).0 same in
      let v=c : v ≡ cards = cc (rw same at e) in ground (arith, h.0, k=u, v=c)
  | inr other ↦ lookup-alone uid c m u cards h.1 (rw other at e)
]

holds_at_level-alone :
    (roster : Roster) (required : ℤ) (uid : ℕ) (c : String) (m : Assoc ℕ (List String))
    → All (λ (e : ℕ × List String). contains e.1 c ≡ (e.0 == uid)) m
    → holds_at_level roster required m c
      ≡ (is_some (lookup uid m) && leb_ℤ required (unwrap_or (pos 0) (roster.user_levels uid)))
unfolding holds_at_level
holds_at_level-alone roster required uid c [] h = refl
holds_at_level-alone roster required uid c ((k, v) ∷ m) h = elim (Bool-cases (k == uid)) [
  | inl same ↦
      let e : k ≡ uid = (==_iff k uid).0 same in
      let owned : contains v c ≡ true = h.0 ∙ same in
      rw (same, owned) (rw e (ground (arith, holds_at_level-alone roster required uid c m h.1)))
  | inr other ↦
      let owned : contains v c ≡ false = h.0 ∙ other in
      rw (other, owned) (ground (arith, holds_at_level-alone roster required uid c m h.1))
]

module _ {ℓ} {Json : Type ℓ} (uuid : UuidText) (graph : RoleGraph) (clock : Clockwork Json)
    (roster : Roster) (uid : ℕ) (c : String) (sole : IsSoleHolder roster uid c)
    (read_back : uuid.parse_str (uuid.to_string uid) ≡ some uid) where
  -- For every kind, naming the holder and naming the card come to the same.
  cards_of-kind_matches :
      (kind : DoorRuleKind) (r : AccessRule)
      → IsCanonical uuid r
      → cards_of uuid graph roster kind r.value c
        ≡ kind_matches uuid graph (card_holder roster uid c) kind r.value
  unfolding cards_of kind_matches
  cards_of-kind_matches card r can = ==_sym r.value c
  cards_of-kind_matches open_access r can = refl
  cards_of-kind_matches role r can = elim (Option-cases (level_of_name graph r.value)) [
    | inl n ↦ rw (n, cards_of, kind_matches) refl
    | inr (required, s) ↦
        rw (s, cards_of, kind_matches)
          (holds_at_level-alone roster required uid c roster.cards_by_user sole.alone
            ∙ rw sole.held.1 refl)
  ]
  cards_of-kind_matches user r can = elim (Option-cases (uuid.parse_str r.value)) [
    | inl n ↦
        rw (n, cards_of)
          (sym (
            ==_ne (uuid.to_string uid) r.value
              (λ e. let read : uuid.parse_str r.value ≡ some uid = rw e at read_back in cc)))
    | inr (u, s) ↦ elim (Bool-cases (u == uid)) [
      | inl same ↦
          let e : u ≡ uid = (==_iff u uid).0 same in
          let cards = sole.held.0 in
          let owned : contains cards c ≡ true =
            lookup-alone uid c roster.cards_by_user uid cards sole.alone sole.held.1
            ∙ ==_refl uid in
          let spelled : uuid.to_string uid ≡ r.value = rw e at (can.spelled u s) in
          let l : lookup u roster.cards_by_user ≡ some cards =
            ap (λ (k : ℕ). lookup k roster.cards_by_user) e ∙ sole.held.1 in
          rw (s, cards_of) (rw l (owned ∙ sym ((==_iff (uuid.to_string uid) r.value).1 spelled)))
      | inr other ↦
          let not_owned = lookup-alone uid c roster.cards_by_user u in
          let unnamed : (uuid.to_string uid == r.value) ≡ false =
            ==_ne (uuid.to_string uid) r.value (λ e.
              let read : uuid.parse_str r.value ≡ some uid = rw e at read_back in
              let e' : u ≡ uid = cc in cc ((==_iff u uid).1 e')) in
          rw (s, cards_of)
            (rw unnamed (elim (Option-cases (lookup u roster.cards_by_user)) [
              | inl n ↦ rw n refl
              | inr (cards, l) ↦ rw l (not_owned cards sole.alone l ∙ other)
            ]))
    ]
  ]

  -- A rule puts the card into a bucket exactly when it matches the holder with that effect.
  puts-allows :
      (r : AccessRule)
      → IsCanonical uuid r
      → (puts uuid graph roster clock DoorRuleEffect.allow c r
          ≡ allows uuid graph (card_holder roster uid c) clock r)
        × (puts uuid graph roster clock DoorRuleEffect.deny c r
            ≡ denies uuid graph (card_holder roster uid c) clock r)
  unfolding rule_matches
  puts-allows r can =
      let by_role = cards_of-kind_matches role r can in
      let by_user = cards_of-kind_matches user r can in
      let by_card = cards_of-kind_matches card r can in
      let by_hold = cards_of-kind_matches open_access r can in
      ground (arith, by_role, by_user, by_card, by_hold)

  any-puts-allows :
      (rules : List AccessRule)
      → All (IsCanonical uuid) rules
      → (any (puts uuid graph roster clock DoorRuleEffect.allow c) rules
          ≡ any (allows uuid graph (card_holder roster uid c) clock) rules)
        × (any (puts uuid graph roster clock DoorRuleEffect.deny c) rules
            ≡ any (denies uuid graph (card_holder roster uid c) clock) rules)
  any-puts-allows [] can = (refl, refl)
  any-puts-allows (r ∷ rules) can =
      let here = puts-allows r can.0 in
      let rest = any-puts-allows rules can.1 in
      (ap₂ (λ a b. a || b) here.0 rest.0, ap₂ (λ a b. a || b) here.1 rest.1)

  to_message-allow : (d : Decision) → to_message d ≡ AccessDecision.allow → d ≡ Decision.allow
  unfolding evaluate
  to_message-allow d h = ground arith

  door_available : (enabled : Bool) → (door_policy enabled).unavailable ≡ none → enabled ≡ true
  door_available true h = refl
  door_available false h = cc

  -- A door has no default grant.
  door_granted :
      (enabled : Bool) (who : Principal) (matched : Bool)
      → (matched || default_open uuid graph who clock (door_policy enabled)) ≡ true
      → matched ≡ true
  unfolding default_open
  door_granted enabled who matched h = ground arith

  -- The QR check-in of the only holder of a card opens the door exactly when the compiled snapshot
  -- admits the card.
  pub evaluate-expand_rules_at :
      (enabled : Bool) (rules : List AccessRule) (action : Action)
      → All (IsCanonical uuid) rules
      → (evaluate uuid graph clock enabled rules (card_holder roster uid c) action
          ≡ AccessDecision.allow)
        ↔ ((enabled ≡ true)
            × ((expand_rules_at uuid graph roster clock rules).deny_cards c ≡ false)
            × ((expand_rules_at uuid graph roster clock rules).allow_cards c ≡ true))
  unfolding evaluate
  evaluate-expand_rules_at enabled rules action can =
      let policy = door_policy enabled in
      let who = card_holder roster uid c in
      let fits = may-allow_iff uuid graph who clock policy rules action in
      let same = any-puts-allows rules can in
      let allow_set =
        expand_rules_at-eq-any uuid graph roster clock DoorRuleEffect.allow c rules ∙ same.0 in
      let deny_set =
        expand_rules_at-eq-any uuid graph roster clock DoorRuleEffect.deny c rules ∙ same.1 in
      (
        λ h.
            let g = fits.0 (to_message-allow (may uuid graph who clock policy rules action) h) in
            (
              door_available enabled g.available,
              deny_set ∙ g.not_denied,
              allow_set ∙ door_granted enabled who _ g.granted,
            ),
        λ (on, not_denied, granted). ap to_message (
            fits.1 (record {
              not_locked = refl;
              available = rw on refl;
              identified = ground arith;
              not_denied = sym deny_set ∙ not_denied;
              granted = ground (arith, sym allow_set ∙ granted);
              trained = refl;
              billable = refl;
            })),
      )

-- Only what the rules match counts.
evaluate-same {ℓ} :
    {Json : Type ℓ} (uuid : UuidText) (graph : RoleGraph) (clock : Clockwork Json) (who : Principal)
    (enabled : Bool) (action : Action) (rules others : List AccessRule)
    → match_rules uuid graph who clock rules ≡ match_rules uuid graph who clock others
    → evaluate uuid graph clock enabled rules who action
      ≡ evaluate uuid graph clock enabled others who action
unfolding evaluate may
evaluate-same uuid graph clock who enabled action rules others h = ground arith

-- A deny rule on a user whose value spells the user's identifier in another way than `to_string`
-- does. It has no schedule, so it is always in force.
abbrev pub deny_user : String → AccessRule
deny_user value = record { kind = "user"; value = value; effect = "deny"; schedule_id = none }

module _ {ℓ} {Json : Type ℓ} (uuid : UuidText) (graph : RoleGraph) (clock : Clockwork Json)
    (roster : Roster) (uid : ℕ) (value : String) where
  -- Such a deny rule refuses the user's cards at the reader and changes nothing at the QR check-in.
  pub evaluate-noncanonical_deny :
      (c : String) (cards : List String) (rules : List AccessRule) (enabled : Bool)
      (action : Action)
      → uuid.parse_str value ≡ some uid
      → uuid.to_string uid ≢ value
      → lookup uid roster.cards_by_user ≡ some cards
      → contains cards c ≡ true
      → ((expand_rules_at uuid graph roster clock (deny_user value ∷ rules)).deny_cards c ≡ true)
        × (evaluate uuid graph clock enabled
              (deny_user value ∷ rules)
              (card_holder roster uid c)
              action
            ≡ evaluate uuid graph clock enabled rules (card_holder roster uid c) action)
  unfolding cards_of kind_matches rule_matches match_rules parse_effect parse_kind rule_fires
      schedule_state_at
  evaluate-noncanonical_deny c cards rules enabled action read other held has = (
    expand_rules_at-eq-any uuid graph roster clock DoorRuleEffect.deny c (deny_user value ∷ rules)
        ∙ ap (λ b. b || any (puts uuid graph roster clock DoorRuleEffect.deny c) rules) put_first,
    evaluate-same uuid graph clock (card_holder roster uid c) enabled action
        (deny_user value ∷ rules) rules skipped,
  )
    where
      named : cards_of uuid graph roster user value c ≡ true
      named = rw (read, cards_of) (rw held has)

      put_first : puts uuid graph roster clock DoorRuleEffect.deny c (deny_user value) ≡ true
      put_first = named

      unnamed : kind_matches uuid graph (card_holder roster uid c) user value ≡ false
      unnamed = ==_ne (uuid.to_string uid) value other

      unmatched : rule_matches uuid graph (card_holder roster uid c) clock (deny_user value) ≡ none
      unmatched = rw (unnamed, rule_matches) refl

      skipped :
          match_rules uuid graph (card_holder roster uid c) clock (deny_user value ∷ rules)
          ≡ match_rules uuid graph (card_holder roster uid c) clock rules
      skipped = rw (unmatched, match_rules, note_match) refl
