-- ===== src/Server/Access/Fixtures.antt =====
-- A roster of two people with a card each, and two access rules, which the tests use.
use cooperative_systems_spac.Prelude.{
  refl, none, some, List, [], ◌∷◌, pos, All, insert, empty_map, if◌then◌else◌, ◌==◌, nat_eq,
  string_eq,
}
use cooperative_systems_spac.Server.Schedules.{ScheduleInterval}
use cooperative_systems_spac.Server.Schedules.Fixtures.{week, utc, monday_ten}
use cooperative_systems_spac.Server.Rbac.{RoleGraph, from_rows}
use cooperative_systems_spac.Server.Rules.{AccessRule, UuidText, Clockwork, Roster}
use cooperative_systems_spac.Server.Access.{Principal}
use cooperative_systems_spac.Server.Access.Snapshot.{IsSoleHolder, IsCanonical, card_holder}

-- User 100 is written "u100", and "U100" reads back as the same user.
abbrev pub uuid : UuidText
uuid = record {
  to_string = λ u. if u == 100 then "u100" else "";
  parse_str = λ s. if s == "u100" then some 100 else if s == "U100" then some 100 else none;
}

unfoldable pub graph : RoleGraph
unfolding from_rows
graph = from_rows (record { id = 3; name = "active"; level = pos 3 } ∷ []) [] []

abbrev pub clock : Clockwork (List ScheduleInterval)
clock = record {
  parse_intervals = λ ivs. some ivs;
  schedules = record { id = 7; intervals = week } ∷ [];
  tz = utc;
  now = monday_ten;
}

abbrev pub roster : Roster
roster = record {
  cards_by_user = (100, "c1" ∷ []) ∷ (200, "c2" ∷ []) ∷ [];
  user_levels = insert 100 (pos 3) empty_map;
}

abbrev pub member : Principal
member = card_holder roster 100 "c1"

abbrev pub members_in_hours : AccessRule
members_in_hours = record {
  kind = "role";
  value = "active";
  effect = "allow";
  schedule_id = some 7;
}

abbrev pub staff_card : AccessRule
staff_card = record { kind = "card"; value = "c9"; effect = "deny"; schedule_id = none }

abbrev pub rules : List AccessRule
rules = staff_card ∷ members_in_hours ∷ []

pub c1-IsSoleHolder : IsSoleHolder roster 100 "c1"
c1-IsSoleHolder = record { held = ("c1" ∷ [], refl); alone = (refl, (refl, tt)) }

pub rules-IsCanonical : All (IsCanonical uuid) rules
rules-IsCanonical = (record { spelled = λ u h. cc }, (record { spelled = λ u h. cc }, tt))
