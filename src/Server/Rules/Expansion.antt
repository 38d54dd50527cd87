-- ===== src/Server/Rules/Expansion.antt =====
-- What `expand_rules_at` of server/src/doors.rs compiles: the cards of the rules in force.
use cooperative_systems_spac.Prelude.{
  ◌≡◌, refl, ◌∙◌, Bool, true, false, ◌&&◌, ◌||◌, Option, none, some, List, [], ◌∷◌, String,
  if◌then◌else◌, arith, any, string_eq,
}
use mathlib.Core.List.{foldl}
use cooperative_systems_spac.Server.Rbac.{RoleGraph}
use cooperative_systems_spac.Server.Rules.{
  DoorRuleEffect, DoorRuleKind, allow, deny, AccessRule, UuidText, Clockwork, Roster, Buckets,
  parse_kind, parse_effect, rule_fires, schedule_state_at, cards_of, add_cards, bucket, expand_rule,
  expand_rules_at,
}

-- The effect and the kind of a rule that parses and that its schedule lets fire.
abbrev pub in_force {ℓ} :
    {Json : Type ℓ} → Clockwork Json → AccessRule → Option (DoorRuleEffect × DoorRuleKind)
in_force clock r = elim (parse_effect r.effect) [
  | none ↦ none
  | some effect ↦
      if rule_fires effect (schedule_state_at clock r.schedule_id)
      then elim (parse_kind r.kind) [ none ↦ none | some kind ↦ some (effect, kind) ]
      else none
]

abbrev pub same_effect : DoorRuleEffect → DoorRuleEffect → Bool
same_effect allow allow = true
same_effect deny deny = true
same_effect allow deny = false
same_effect deny allow = false

module _ {ℓ} {Json : Type ℓ} (uuid : UuidText) (graph : RoleGraph) (roster : Roster)
    (clock : Clockwork Json) where
  -- A rule in force puts the card into the bucket of its effect.
  abbrev pub puts : DoorRuleEffect → String → AccessRule → Bool
  puts effect c r = elim (in_force clock r) [
    | none ↦ false
    | some (e, kind) ↦ same_effect e effect && cards_of uuid graph roster kind r.value c
  ]

  bucket-add :
      (effect e : DoorRuleEffect) (cards : String → Bool) (b : Buckets) (c : String)
      → bucket effect (add_cards e cards b) c
        ≡ (bucket effect b c || (same_effect e effect && cards c))
  bucket-add allow allow cards b c = refl
  bucket-add allow deny cards b c = ground arith
  bucket-add deny allow cards b c = ground arith
  bucket-add deny deny cards b c = refl

  bucket-expand_rule :
      (effect : DoorRuleEffect) (c : String) (b : Buckets) (r : AccessRule)
      → bucket effect (expand_rule uuid graph roster clock b r) c
        ≡ (bucket effect b c || puts effect c r)
  unfolding expand_rule
  bucket-expand_rule allow c b r = ground arith
  bucket-expand_rule deny c b r = ground arith

  bucket-expand_from :
      (effect : DoorRuleEffect) (c : String) (rules : List AccessRule) (b : Buckets)
      → bucket effect (foldl (expand_rule uuid graph roster clock) b rules) c
        ≡ (bucket effect b c || any (puts effect c) rules)
  bucket-expand_from effect c [] b = ground arith
  bucket-expand_from effect c (r ∷ rules) b =
      bucket-expand_from effect c rules (expand_rule uuid graph roster clock b r)
      ∙ ground (arith, bucket-expand_rule effect c b r)

  -- A bucket holds exactly the cards that some rule in force with its effect puts there.
  pub expand_rules_at-eq-any :
      (effect : DoorRuleEffect) (c : String) (rules : List AccessRule)
      → bucket effect (expand_rules_at uuid graph roster clock rules) c ≡ any (puts effect c) rules
  unfolding expand_rules_at
  expand_rules_at-eq-any allow c rules = bucket-expand_from allow c rules _
  expand_rules_at-eq-any deny c rules = bucket-expand_from deny c rules _
