-- ===== src/Deployment/Badges.antt =====
-- server/src/doors.rs (`compile_state_for`, `evaluate`) against edge/src/resources.rs
-- (`apply_doors_alias`, `decide`): the badge at the door and the QR check-in.
mod Examples
use cooperative_systems_spac.Prelude.{
  ℕ, ◌≡◌, refl, sym, ap, ◌∙◌, Bool, true, false, ◌&&◌, ◌||◌, not, Option, none, some, List, [], ◌∷◌,
  ◌++◌, map, String, ltb, if◌then◌else◌, ◌==◌, nat_eq, string_eq, arith, ◌↔◌, inl, inr, Bool-cases,
  Option-cases, any, filter, find, contains, is_some_and, unwrap_or, All, find-In, any_of_In,
}
use cooperative_systems_spac.Server.Rbac.{RoleGraph}
use cooperative_systems_spac.Server.Rules.{
  DoorRuleEffect, AccessRule, UuidText, Clockwork, Roster, expand_rules_at,
}
use cooperative_systems_spac.Server.Access.{Action, AccessDecision}
use cooperative_systems_spac.Server.Access as Server
use cooperative_systems_spac.Server.Access.Snapshot.{
  IsSoleHolder, IsCanonical, card_holder, evaluate-expand_rules_at,
}
use cooperative_systems_spac.Server.Compile.{Door, DoorRows, compile_door, compile_state_for}
use cooperative_systems_spac.Server.Compile as Compile
use cooperative_systems_spac.Server.Compile.Cards.{contains-collect_cards}
use cooperative_systems_spac.Edge.Power.{Amperes, is_locked}
use cooperative_systems_spac.Edge.Resources.{
  door, Entry, Member, Policy, ResourceCache, Outside, find_entry, named, decide, is_allowed,
  is_held, decide-allow_iff, member_may,
}
use cooperative_systems_spac.Edge.Resources.Ingest.{
  CompiledDoor, DoorStateSnapshot, from_compiled_door, is_stale, replace_kind, same_kind,
  apply_doors_alias,
}

-- What arrives: the two structs have the same fields, and the wire carries them by name.
abbrev pub received_door : Compile.CompiledDoor → CompiledDoor
received_door d = record {
  id = d.id;
  name = d.name;
  enabled = d.enabled;
  unlock_duration_ms = d.unlock_duration_ms;
  allow_cards = d.allow_cards;
  deny_cards = d.deny_cards;
  hold_unlock_until = d.hold_unlock_until;
}

abbrev pub received : Compile.DoorStateSnapshot → DoorStateSnapshot
received s = record { snapshot_at = s.snapshot_at; doors = map received_door s.doors }

module _ (outside : Outside) where
  find-append :
      (name : String) (xs ys : List Entry)
      → any (λ (e : Entry). named outside e name) xs ≡ false
      → find (λ (e : Entry). named outside e name) (xs ++ ys)
        ≡ find (λ (e : Entry). named outside e name) ys
  find-append name [] ys h = refl
  find-append name (x ∷ xs) ys h = ground (arith, find-append name xs ys)

module _ {ℓ} {Json : Type ℓ} (uuid : UuidText) (graph : RoleGraph) (roster : Roster)
    (clock : Clockwork Json) (db : DoorRows) (outside : Outside) where
  -- The entry that the edge holds for a door.
  abbrev pub held_entry : Door → Entry
  unfolding from_compiled_door
  held_entry d = from_compiled_door (received_door (compile_door uuid graph roster clock db d))

  -- The first door with the name is the one that the edge finds.
  find-held :
      (name : String) (doors : List Door) (d : Door)
      → find (λ (x : Door). outside.uuid_text x.id == name) doors ≡ some d
      → find
          (λ (e : Entry). named outside e name)
          (map from_compiled_door
            (map received_door (map (compile_door uuid graph roster clock db) doors)))
        ≡ some (held_entry d)
  unfolding from_compiled_door named compile_door
  find-held name [] d h = cc
  find-held name (x ∷ doors) d h = elim (Bool-cases (outside.uuid_text x.id == name)) [
    | inl same ↦ let e : x ≡ d = cc (rw same at h) in rw same (rw e refl)
    | inr other ↦ rw other (find-held name doors d (rw other at h))
  ]

  module _ {amperes : Amperes} (s : ResourceCache amperes) (doors : List Door) where
    -- The edge after the snapshot of those doors has arrived.
    abbrev pub delivered : ResourceCache amperes
    delivered = record s {
      policy =
          apply_doors_alias (received (compile_state_for uuid graph roster clock db doors))
            s.policy;
    }

    -- Nothing else that the edge knows interferes with the door: the snapshot is not stale, no other
    -- resource has its name, power does not lock it, no member may start it by themselves, and its
    -- Open Access window is over by the edge's clock.
    pub record IsPlain (name : String) (d : Door) (now : ℕ) : Type 0 where
      pub fresh : is_stale s.policy clock.now ≡ false
      pub unnamed :
          any
            (λ (e : Entry). named outside e name)
            (filter (λ (e : Entry). not (same_kind e.kind door)) s.policy.entries)
          ≡ false
      pub listed : find (λ (x : Door). outside.uuid_text x.id == name) doors ≡ some d
      pub powered : is_locked s.power name ≡ false
      pub no_member : any (λ (m : Member). contains m.authorized d.id) s.policy.members ≡ false
      pub window_over : is_held now (held_entry d) ≡ false

    find-delivered :
        (name : String) (d : Door) (now : ℕ)
        → IsPlain name d now
        → find_entry outside delivered.policy name ≡ some (held_entry d)
    unfolding find_entry apply_doors_alias replace_kind compile_state_for
    find-delivered name d now plain = rw plain.fresh (
        find-append outside name
          (filter (λ (e : Entry). not (same_kind e.kind door)) s.policy.entries) _ plain.unnamed
        ∙ find-held name doors d plain.listed)

    members-delivered : delivered.policy.members ≡ s.policy.members
    unfolding apply_doors_alias replace_kind
    members-delivered = ground arith

    no_member_may :
        (members : List Member) (token : String) (d : Door)
        → any (λ (m : Member). contains m.authorized d.id) members ≡ false
        → member_may members token (held_entry d) ≡ false
    unfolding from_compiled_door compile_door
    no_member_may members token d none_may =
        elim (Option-cases (find (λ (m : Member). m.digest == token) members)) [
          | inl n ↦ rw n refl
          | inr (m, f) ↦ elim (Bool-cases (contains m.authorized d.id)) [
            | inr no_right ↦ rw f (ground arith)
            | inl may_start ↦
                let there = find-In (λ (x : Member). x.digest == token) members f in
                cc (any_of_In (λ (x : Member). contains x.authorized d.id) members there may_start)
          ]
        ]

    decide-lists :
        (name swiped c : String) (d : Door) (now : ℕ)
        → IsPlain name d now
        → unwrap_or "" (outside.wire_digest_hex swiped) ≡ c
        → is_allowed (decide outside delivered name swiped now) ≡ (
            d.enabled
            && not ((expand_rules_at uuid graph roster clock (db.rules_for_door d.id)).deny_cards c)
            && (expand_rules_at uuid graph roster clock (db.rules_for_door d.id)).allow_cards c)
    unfolding from_compiled_door compile_door
    decide-lists name swiped c d now plain read =
        let rules = db.rules_for_door d.id in
        let allow_set =
          contains-collect_cards uuid graph roster clock DoorRuleEffect.allow rules c in
        let deny_set = contains-collect_cards uuid graph roster clock DoorRuleEffect.deny rules c in
        let found = find-delivered name d now plain in
        let members = no_member_may s.policy.members c d plain.no_member in
        decide-allow_iff outside delivered name swiped now
        ∙ rw (read, found, members-delivered) (ground (arith, allow_set, deny_set, members))

    module _ (uid : ℕ) (c : String) (sole : IsSoleHolder roster uid c)
        (read_back : uuid.parse_str (uuid.to_string uid) ≡ some uid) where
      -- A snapshot that the server compiled has arrived at the edge, and nothing else that the edge
      -- holds concerns the door. Then a swipe of a card whose digest is `c` opens the door at the
      -- edge, offline and at any time at which its Open Access window is over, exactly when the QR
      -- check-in of the card's only holder opened it at the instant of the compilation; where the
      -- holder has no other card and each rule on a user is in the canonical spelling.
      pub decide-evaluate :
          (name swiped : String) (d : Door) (now : ℕ) (action : Action)
          → IsPlain name d now
          → unwrap_or "" (outside.wire_digest_hex swiped) ≡ c
          → All (IsCanonical uuid) (db.rules_for_door d.id)
          → (is_allowed (decide outside delivered name swiped now) ≡ true) ↔ (
              Server.evaluate uuid graph clock d.enabled
                (db.rules_for_door d.id)
                (card_holder roster uid c)
                action
              ≡ AccessDecision.allow)
      decide-evaluate name swiped d now action plain read canonical =
          let lists = decide-lists name swiped c d now plain read in
          let qr =
            evaluate-expand_rules_at uuid graph clock roster uid c sole read_back d.enabled
              (db.rules_for_door d.id) action canonical in
          (
            λ h. qr.1 (ground (arith, lists)),
            λ h. let g = qr.0 h in ground (arith, lists, g.0, g.1, g.2),
          )
