-- ===== src/Server/Access/Examples.antt =====
-- Decisions of the access engine about concrete people, cards and rules.
use cooperative_systems_spac.Prelude.{
  ℕ, ◌≡◌, refl, Bool, true, false, [], ◌∷◌, String, ◌↔◌, ◌==◌, nat_eq, string_eq, ==_iff,
}
use cooperative_systems_spac.Server.Schedules.{matches_at, from_chrono}
use cooperative_systems_spac.Server.Rbac.{level_of_name}
use cooperative_systems_spac.Server.Rules.{
  expand_rules_at, parse_kind, parse_effect, rule_fires, schedule_state_at, window_state,
  intervals_of,
}
use cooperative_systems_spac.Server.Access.{
  unlock, Decision, AccessDecision, door_policy, may, evaluate, match_rules, ToolFacts,
  kind_matches, rule_matches,
}
use cooperative_systems_spac.Server.Access.Precedence.{
  IsGranted, may-allow_iff, drop_schedules, may-drop_schedules,
}
use cooperative_systems_spac.Server.Access.Snapshot.{
  evaluate-expand_rules_at, deny_user, evaluate-noncanonical_deny,
}
use cooperative_systems_spac.Server.Access.Fixtures.{
  uuid, graph, clock, roster, member, rules, c1-IsSoleHolder, rules-IsCanonical,
}

may-allow_iff_example :
    (may uuid graph member clock (door_policy true) rules unlock ≡ Decision.allow)
    ↔ IsGranted uuid graph member clock (door_policy true) rules unlock
may-allow_iff_example = may-allow_iff uuid graph member clock (door_policy true) rules unlock

-- Without the rows of other schedules the member still enters.
abbrev kept : ℕ → Bool
kept sid = sid == 7

member_enters :
    may uuid graph member (drop_schedules kept clock) (door_policy true) rules unlock
    ≡ Decision.allow
unfolding graph may match_rules rule_matches kind_matches parse_kind parse_effect rule_fires
    schedule_state_at window_state intervals_of matches_at from_chrono level_of_name
member_enters = refl

may-drop_schedules_example :
    may uuid graph member clock (door_policy true) rules unlock ≡ Decision.allow
may-drop_schedules_example =
    may-drop_schedules uuid graph member kept clock (door_policy true) rules unlock member_enters

evaluate-expand_rules_at_example :
    (evaluate uuid graph clock true rules member unlock ≡ AccessDecision.allow) ↔ (
      (true ≡ true)
      × ((expand_rules_at uuid graph roster clock rules).deny_cards "c1" ≡ false)
      × ((expand_rules_at uuid graph roster clock rules).allow_cards "c1" ≡ true))
evaluate-expand_rules_at_example =
    evaluate-expand_rules_at uuid graph clock roster 100 "c1" c1-IsSoleHolder refl true rules unlock
      rules-IsCanonical

-- The user is denied by the other spelling: refused at the reader, and let in by the QR check-in.
evaluate-noncanonical_deny_example :
    ((expand_rules_at uuid graph roster clock (deny_user "U100" ∷ rules)).deny_cards "c1" ≡ true)
    × (evaluate uuid graph clock true (deny_user "U100" ∷ rules) member unlock
        ≡ evaluate uuid graph clock true rules member unlock)
evaluate-noncanonical_deny_example =
    evaluate-noncanonical_deny uuid graph clock roster 100 "U100" "c1" ("c1" ∷ []) rules true unlock
      refl (λ e. cc ((==_iff {A = String} "u100" "U100").1 e)) refl refl

qr_lets_in :
    evaluate uuid graph clock true (deny_user "U100" ∷ rules) member unlock ≡ AccessDecision.allow
unfolding graph evaluate may match_rules rule_matches kind_matches parse_kind parse_effect
    rule_fires schedule_state_at window_state intervals_of matches_at from_chrono level_of_name
qr_lets_in = refl

-- A tool that requires training, with no steps, for a member with a waiver.
abbrev waived : ToolFacts
waived = record {
  locked_out = false;
  has_steps = false;
  requires_training = true;
  has_active_waiver = true;
  completed_all_steps = false;
}
