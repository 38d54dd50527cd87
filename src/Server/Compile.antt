-- ===== src/Server/Compile.antt =====
-- server/src/doors.rs, `compile_state_for` and `republish_changed`: the snapshot of the doors of a
-- device, and when it is sent. The rows come from the database; `Utc::now()` is one instant a pass.
pub mod Cards
pub mod Republish
use cooperative_systems_spac.Prelude.{
  ℕ, Bool, true, false, ◌||◌, Option, none, some, List, [], ◌∷◌, ◌++◌, map, String, ℤ, Map, insert,
  nat_eq, ◌==◌, if◌then◌else◌, all, filter, flatten, text_set, is_empty,
}
use cooperative_systems_spac.Server.Rbac.{RoleGraph}
use cooperative_systems_spac.Server.Rules.{
  AccessRule, UuidText, Clockwork, Roster, Buckets, expand_rules_at, open_access_hold_until_at,
}

-- A door's row: what the compilation reads of it.
pub record Door : Type 0 where
  pub id : ℕ
  pub name : String
  pub enabled : Bool

pub record StrikeProfile : Type 0 where
  pub pulse_ms : ℤ
  pub hold_open_access : Bool

pub record CompiledDoor : Type 0 where
  pub id : ℕ
  pub name : String
  pub enabled : Bool
  pub unlock_duration_ms : ℤ
  pub allow_cards : List String
  pub deny_cards : List String
  pub hold_unlock_until : Option ℕ

pub record DoorStateSnapshot : Type 0 where
  pub snapshot_at : ℕ
  pub doors : List CompiledDoor

-- What the database and the configuration answer: the rules of a door, the `strike` bindings of a
-- door with the oldest first (pulse and hold), and the site's default pulse.
pub record DoorRows : Type 0 where
  pub rules_for_door : ℕ → List AccessRule
  pub strike_rows : ℕ → List (ℤ × Bool)
  pub default_unlock_duration_ms : ℤ

-- `DatabaseManager::door_strike`, on its rows: the first binding's pulse, and a hold that every one
-- allows.
unfoldable pub door_strike : List (ℤ × Bool) → Option StrikeProfile
door_strike [] = none
door_strike (row ∷ rows) =
    some (record { pulse_ms = row.0; hold_open_access = all (λ (r : ℤ × Bool). r.1) (row ∷ rows) })

unfoldable pub strike_profile : DoorRows → ℕ → StrikeProfile
unfolding door_strike
strike_profile db id = elim (door_strike (db.strike_rows id)) [
  | some profile ↦ profile
  | none ↦ record { pulse_ms = db.default_unlock_duration_ms; hold_open_access = true }
]

-- Every card that the expansion of the rules can put into a set.
abbrev pub cards_named : Roster → List AccessRule → List String
cards_named roster rules =
    flatten (map (λ (e : ℕ × List String). e.1) roster.cards_by_user)
    ++ map (λ (r : AccessRule). r.value) rules

-- `into_iter().collect()` of a set of cards, as a test.
unfoldable pub collect_cards : Roster → List AccessRule → (String → Bool) → List String
collect_cards roster rules cards = text_set (filter cards (cards_named roster rules))

module _ {ℓ} {Json : Type ℓ} (uuid : UuidText) (graph : RoleGraph) (roster : Roster)
    (clock : Clockwork Json) (db : DoorRows) where
  -- The loop's body: one door.
  unfoldable pub compile_door : Door → CompiledDoor
  unfolding strike_profile collect_cards
  compile_door door =
      let rules = db.rules_for_door door.id in
      let buckets = expand_rules_at uuid graph roster clock rules in
      let strike = strike_profile db door.id in
      record {
        id = door.id;
        name = door.name;
        enabled = door.enabled;
        unlock_duration_ms = strike.pulse_ms;
        allow_cards = collect_cards roster rules buckets.allow_cards;
        deny_cards = collect_cards roster rules buckets.deny_cards;
        hold_unlock_until =
            if strike.hold_open_access then open_access_hold_until_at clock rules else none;
      }

  -- Where the device has no door the lists are not loaded; the snapshot is the same.
  unfoldable pub compile_state_for : List Door → DoorStateSnapshot
  unfolding compile_door
  compile_state_for doors = record { snapshot_at = clock.now; doors = map compile_door doors }
