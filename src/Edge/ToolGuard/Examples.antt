-- ===== src/Edge/ToolGuard/Examples.antt =====
-- A laser that is idle, and a member who may use it.
use cooperative_systems_spac.Prelude.{
  true, false, none, some, [], ◌∷◌, ◌≡◌, refl, ◌==◌, nat_eq, string_eq, if◌then◌else◌,
}
use cooperative_systems_spac.Edge.Resources.{Outside}
use cooperative_systems_spac.Edge.ToolGuard.{
  ToolGuardState, authorized, tool_unavailable, idle, in_use, ToolStatus, find_tool, find_user,
  check_tool, check_user, check_access,
}

abbrev outside : Outside
outside = record {
  parse_uuid = λ _. none;
  parse_instant = λ _. none;
  uuid_text = λ u. if u == 7 then "d7" else "";
  wire_digest_hex = λ card. if card == "0042" then some "aa" else none;
}

abbrev laser : ToolStatus → ToolGuardState
laser status = record {
  inner = some (record {
    device_id = 1;
    profile_field = "card";
    tools =
        record {
          id = 7;
          external_id = some "laser";
          name = "Laser";
          status = status;
          requires_online = false;
        }
        ∷ [];
    users =
        record {
          profile_field_digest = "aa";
          full_name = "Ada";
          is_active = true;
          authorized_tool_ids = 7 ∷ [];
        }
        ∷ [];
  });
}

authorized_by_name : check_access outside (laser idle) "0042" "laser" ≡ authorized
unfolding check_access check_user check_tool find_user find_tool
authorized_by_name = refl

taken : check_access outside (laser in_use) "0042" "d7" ≡ tool_unavailable "inuse"
unfolding check_access check_user check_tool find_user find_tool
taken = refl
