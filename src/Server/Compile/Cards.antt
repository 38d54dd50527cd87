-- ===== src/Server/Compile/Cards.antt =====
-- server/src/doors.rs: the card lists of a compiled door are the sets that the rules expand to.
use cooperative_systems_spac.Prelude.{
  ℕ, ◌≡◌, refl, ◌∙◌, Bool, true, ◌&&◌, ◌||◌, some, List, [], ◌∷◌, map, String, nat_eq, string_eq,
  ◌==◌, ==_iff, arith, inl, inr, Bool-cases, Option-cases, any, any_append, any-text_set, contains,
  flatten, Assoc, lookup, ℤ, filter,
}
use cooperative_systems_spac.Server.Rbac.{RoleGraph, level_of_name}
use cooperative_systems_spac.Server.Rules.{
  DoorRuleEffect, DoorRuleKind, role, user, card, open_access, AccessRule, UuidText, Clockwork,
  Roster, cards_of, holds_at_level, bucket, expand_rules_at,
}
use cooperative_systems_spac.Server.Rules.Expansion.{puts, expand_rules_at-eq-any}
use cooperative_systems_spac.Server.Compile.{cards_named, collect_cards}

-- Some user of the roster holds the card.
abbrev pub held_by_some : Assoc ℕ (List String) → String → Bool
held_by_some m c = any (λ (e : ℕ × List String). contains e.1 c) m

contains-flatten :
    (m : Assoc ℕ (List String)) (c : String)
    → contains (flatten (map (λ (e : ℕ × List String). e.1) m)) c ≡ held_by_some m c
contains-flatten [] c = refl
contains-flatten ((k, cards) ∷ m) c =
    any_append (λ x. x == c) cards (flatten (map (λ (e : ℕ × List String). e.1) m))
    ∙ ground (arith, contains-flatten m c)

lookup-held :
    (m : Assoc ℕ (List String)) (u : ℕ) (cards : List String) (c : String)
    → lookup u m ≡ some cards
    → contains cards c ≡ true
    → held_by_some m c ≡ true
lookup-held [] u cards c e h = cc
lookup-held ((k, v) ∷ m) u cards c e h = elim (Bool-cases (k == u)) [
  | inl same ↦ let v=c : v ≡ cards = cc (rw same at e) in ground (arith, v=c)
  | inr other ↦ ground (arith, lookup-held m u cards c (rw other at e) h)
]

level-held :
    (roster : Roster) (required : ℤ) (m : Assoc ℕ (List String)) (c : String)
    → holds_at_level roster required m c ≡ true
    → held_by_some m c ≡ true
unfolding holds_at_level
level-held roster required [] c h = cc
level-held roster required ((k, v) ∷ m) c h = ground (arith, level-held roster required m c)

contains-values :
    (rules : List AccessRule) (c : String)
    → contains (map (λ (r : AccessRule). r.value) rules) c
      ≡ any (λ (r : AccessRule). r.value == c) rules
contains-values [] c = refl
contains-values (r ∷ rules) c = ground (arith, contains-values rules c)

contains-cards_named :
    (roster : Roster) (rules : List AccessRule) (c : String)
    → contains (cards_named roster rules) c
      ≡ (held_by_some roster.cards_by_user c || any (λ (r : AccessRule). r.value == c) rules)
contains-cards_named roster rules c =
    let held = flatten (map (λ (e : ℕ × List String). e.1) roster.cards_by_user) in
    any_append (λ x. x == c) held (map (λ (r : AccessRule). r.value) rules)
    ∙ ground (arith, contains-flatten roster.cards_by_user c, contains-values rules c)

contains-filter :
    (cards : String → Bool) (xs : List String) (c : String)
    → contains (filter cards xs) c ≡ (cards c && contains xs c)
contains-filter cards [] c = ground arith
contains-filter cards (x ∷ xs) c = elim (Bool-cases (x == c)) [
  | inl same ↦
      let e : x ≡ c = (==_iff x c).0 same in rw e (ground (arith, contains-filter cards xs c))
  | inr other ↦ ground (arith, contains-filter cards xs c)
]

module _ {ℓ} {Json : Type ℓ} (uuid : UuidText) (graph : RoleGraph) (roster : Roster)
    (clock : Clockwork Json) where
  cards_of-named :
      (kind : DoorRuleKind) (value c : String)
      → cards_of uuid graph roster kind value c ≡ true
      → ((value == c) || held_by_some roster.cards_by_user c) ≡ true
  unfolding cards_of
  cards_of-named card value c h = ground arith
  cards_of-named open_access value c h = cc
  cards_of-named role value c h = elim (Option-cases (level_of_name graph value)) [
    | inl n ↦ cc (rw (n, cards_of) at h)
    | inr (required, s) ↦
        let held = level-held roster required roster.cards_by_user c (rw (s, cards_of) at h) in
        ground (arith, held)
  ]
  cards_of-named user value c h = elim (Option-cases (uuid.parse_str value)) [
    | inl n ↦ cc (rw (n, cards_of) at h)
    | inr (u, s) ↦ elim (Option-cases (lookup u roster.cards_by_user)) [
      | inl n ↦ cc (rw (n, cards_of) at (rw (s, cards_of) at h))
      | inr (cards, l) ↦
          let has : contains cards c ≡ true = rw (l, cards_of) at (rw (s, cards_of) at h) in
          let held = lookup-held roster.cards_by_user u cards c l has in ground (arith, held)
    ]
  ]

  puts-named :
      (effect : DoorRuleEffect) (c : String) (r : AccessRule)
      → puts uuid graph roster clock effect c r ≡ true
      → ((r.value == c) || held_by_some roster.cards_by_user c) ≡ true
  puts-named effect c r h = ground (
    arith,
    cards_of-named role r.value c,
    cards_of-named user r.value c,
    cards_of-named card r.value c,
    cards_of-named open_access r.value c,
  )

  any-puts-named :
      (effect : DoorRuleEffect) (c : String) (rules : List AccessRule)
      → any (puts uuid graph roster clock effect c) rules ≡ true
      → (held_by_some roster.cards_by_user c || any (λ (r : AccessRule). r.value == c) rules) ≡ true
  any-puts-named effect c [] h = cc
  any-puts-named effect c (r ∷ rules) h =
      ground (arith, puts-named effect c r, any-puts-named effect c rules)

  -- A list of the compiled door contains exactly the cards of its set.
  pub contains-collect_cards :
      (effect : DoorRuleEffect) (rules : List AccessRule) (c : String)
      → contains
          (collect_cards roster rules
            (bucket effect (expand_rules_at uuid graph roster clock rules)))
          c
        ≡ bucket effect (expand_rules_at uuid graph roster clock rules) c
  unfolding collect_cards
  contains-collect_cards effect rules c =
      let cards = bucket effect (expand_rules_at uuid graph roster clock rules) in
      any-text_set (λ x. x == c) (filter cards (cards_named roster rules))
      ∙ contains-filter cards (cards_named roster rules) c
      ∙ all_named
    where
      all_named :
          (bucket effect (expand_rules_at uuid graph roster clock rules) c
            && contains (cards_named roster rules) c)
          ≡ bucket effect (expand_rules_at uuid graph roster clock rules) c
      all_named = ground (
        arith,
        expand_rules_at-eq-any uuid graph roster clock effect c rules,
        any-puts-named effect c rules,
        contains-cards_named roster rules c,
      )
