-- ===== src/Server/Sweep/Examples.antt =====
-- A tool left on for three hours, one for one, and a room that nobody left, at the fourth hour.
use cooperative_systems_spac.Prelude.{
  ℕ, ◌≡◌, refl, ◌&&◌, true, false, Option, none, some, [], ◌∷◌, pos, nat_eq, ◌==◌, if◌then◌else◌,
  any, ◌/◌,
}
use cooperative_systems_spac.Server.Billing.{
  Rounding, BillingConfig, Tool, ToolRateTier, max_minutes, is_abandoned,
}
use cooperative_systems_spac.Server.Sweep.{
  idle, in_use, is_in_use, Floor, sweep_tools, get_inuse_tools, release, sweep_rooms,
  rooms_to_release, close_resource_session, sweep_once,
}
use cooperative_systems_spac.Server.Sweep.Releases.{
  overdue_in, open_with, is_old_room, sweep_once-releases,
}

abbrev round : Rounding
round n = n / 60000

abbrev config : BillingConfig
config = record {
  prepaid = true;
  require_membership = true;
  min_balance = pos 0;
  default_max_session_minutes = 120;
}

abbrev plain : ℕ → Tool
plain i = record {
  id = i;
  usage_flat_fee = none;
  usage_rate_per_min = none;
  usage_max_session_minutes = none;
  usage_basis = "occupancy";
}

abbrev fourth_hour : ℕ
fourth_hour = 14400000000000

abbrev activated : ℕ → Option (ℕ × Option ℕ)
activated i = if i == 1 then some (0, some 7) else none

abbrev floor : Floor
floor = record {
  status = λ id. in_use;
  usage = record { ledger = []; sessions = [] };
  rooms =
      record { id = 50; resource_id = 9; opened_at = 0; closed_at = none; closed_by = none } ∷ [];
  events = [];
}

abbrev no_tool : ℕ → Option Tool
no_tool i = none

abbrev no_tier : ℕ → ℕ → Option ToolRateTier
no_tier uid i = none

sweep_once-releases_example :
    ((sweep_once round config
          (λ _. true)
          no_tier
          (λ _. "")
          false
          60
          fourth_hour
          (λ _. 10800000000000)
          activated
          (plain 1 ∷ plain 2 ∷ [])
          no_tool
          ((9, "door") ∷ [])
          floor).0.status
        1
      ≡ (if is_in_use (floor.status 1)
            && overdue_in round config
                (λ _. true)
                no_tier
                (λ _. "")
                false
                60
                fourth_hour
                (λ _. 10800000000000)
                activated
                1
                (plain 1 ∷ plain 2 ∷ [])
          then idle
          else floor.status 1))
    × (any
          (open_with (
            is_old_room round config
              (λ _. true)
              no_tier
              (λ _. "")
              false
              60
              fourth_hour
              (λ _. 10800000000000)
              activated
              ((9, "door") ∷ [])))
          (sweep_once round config
            (λ _. true)
            no_tier
            (λ _. "")
            false
            60
            fourth_hour
            (λ _. 10800000000000)
            activated
            (plain 1 ∷ plain 2 ∷ [])
            no_tool
            ((9, "door") ∷ [])
            floor).0.rooms
        ≡ false)
sweep_once-releases_example =
    sweep_once-releases round config (λ _. true) no_tier (λ _. "") false 60 fourth_hour
      (λ _. 10800000000000) activated (plain 1 ∷ plain 2 ∷ []) no_tool ((9, "door") ∷ []) floor 1

released :
    (sweep_once round config
      (λ _. true)
      no_tier
      (λ _. "")
      false
      60
      fourth_hour
      (λ _. 10800000000000)
      activated
      (plain 1 ∷ plain 2 ∷ [])
      no_tool
      ((9, "door") ∷ [])
      floor).1
    ≡ 2
unfolding sweep_once sweep_tools get_inuse_tools release sweep_rooms rooms_to_release
    close_resource_session is_abandoned max_minutes
released = refl
