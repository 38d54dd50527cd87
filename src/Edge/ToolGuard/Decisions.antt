-- ===== src/Edge/ToolGuard/Decisions.antt =====
-- edge/src/toolguard.rs, `check_access`: when a badge may start a tool offline.
use cooperative_systems_spac.Prelude.{
  true, Option, none, some, String, ◌≡◌, refl, ◌↔◌, nat_eq, contains, inl, inr, Bool-cases,
  Option-cases,
}
use cooperative_systems_spac.Edge.Resources.{Outside}
use cooperative_systems_spac.Edge.ToolGuard.{
  SyncPayload, SyncTool, SyncUser, ToolGuardState, authorized, is_idle, find_tool, find_user,
  check_tool, check_user, check_access,
}

module _ (outside : Outside) where
  -- What the cache says for a badge and a tool's name.
  pub record IsAllowed (state : ToolGuardState) (card_value tool_id : String) : Type 0 where
    pub payload : SyncPayload
    pub presented : String
    pub user : SyncUser
    pub tool : SyncTool
    pub synced : state.inner ≡ some payload
    pub digested : outside.wire_digest_hex card_value ≡ some presented
    pub known : find_user outside payload presented ≡ some user
    pub active : user.is_active ≡ true
    pub listed : find_tool outside payload tool_id ≡ some tool
    pub may_use : contains user.authorized_tool_ids tool.id ≡ true
    pub free : is_idle tool.status ≡ true

  check_user-allowed :
      (payload : SyncPayload) (user : SyncUser) (tool : SyncTool) (tool_id : String)
      → user.is_active ≡ true
      → find_tool outside payload tool_id ≡ some tool
      → contains user.authorized_tool_ids tool.id ≡ true
      → is_idle tool.status ≡ true
      → check_user outside payload (some user) tool_id ≡ authorized
  unfolding check_user check_tool
  check_user-allowed payload user tool tool_id active listed may_use free =
      rw (active, listed) (rw (may_use, free) refl)

  IsAllowed-access :
      (state : ToolGuardState) (card_value tool_id : String)
      → IsAllowed state card_value tool_id
      → check_access outside state card_value tool_id ≡ authorized
  unfolding check_access
  IsAllowed-access state card_value tool_id a =
      rw (a.synced, check_access)
        (rw a.digested (
          rw a.known (
            check_user-allowed a.payload a.user a.tool tool_id a.active a.listed a.may_use a.free)))

  check_tool-authorized :
      (user : SyncUser) (tool : Option SyncTool)
      → check_tool outside user tool ≡ authorized
      → (t : SyncTool) × (tool ≡ some t)
        × (contains user.authorized_tool_ids t.id ≡ true)
        × (is_idle t.status ≡ true)
  unfolding check_tool
  check_tool-authorized user none h = cc
  check_tool-authorized user (some t) h =
      elim (Bool-cases (contains user.authorized_tool_ids t.id)) [
        | inr outsider ↦ cc (rw (outsider, check_tool) at h)
        | inl may_use ↦ elim (Bool-cases (is_idle t.status)) [
          | inr taken ↦ cc (rw (may_use, taken, check_tool) at h)
          | inl free ↦ (t, refl, may_use, free)
        ]
      ]

  check_user-authorized :
      (payload : SyncPayload) (user : Option SyncUser) (tool_id : String)
      → check_user outside payload user tool_id ≡ authorized
      → (u : SyncUser) × (user ≡ some u)
        × (u.is_active ≡ true)
        × (check_tool outside u (find_tool outside payload tool_id) ≡ authorized)
  unfolding check_user
  check_user-authorized payload none tool_id h = cc
  check_user-authorized payload (some u) tool_id h = elim (Bool-cases u.is_active) [
    | inr inactive ↦ cc (rw (inactive, check_user) at h)
    | inl active ↦ (u, refl, active, simp (active, check_user) at h)
  ]

  access-IsAllowed :
      (state : ToolGuardState) (card_value tool_id : String)
      → check_access outside state card_value tool_id ≡ authorized
      → IsAllowed state card_value tool_id
  unfolding check_access
  access-IsAllowed state card_value tool_id h = elim (Option-cases state.inner) [
    | inl n ↦ cc (rw (n, check_access) at h)
    | inr (payload, synced) ↦ elim (Option-cases (outside.wire_digest_hex card_value)) [
      | inl n ↦ cc (rw (synced, n, check_access) at h)
      | inr (presented, digested) ↦
          let checked : check_user outside payload (find_user outside payload presented) tool_id
              ≡ authorized =
            rw (synced, digested, check_access) at h in
          let (user, known, active, tool_checked) =
            check_user-authorized payload (find_user outside payload presented) tool_id checked in
          let (tool, listed, may_use, free) =
            check_tool-authorized user (find_tool outside payload tool_id) tool_checked in
          record {
            payload = payload;
            presented = presented;
            user = user;
            tool = tool;
            synced = synced;
            digested = digested;
            known = known;
            active = active;
            listed = listed;
            may_use = may_use;
            free = free;
          }
    ]
  ]

  -- `check_access` authorizes exactly when a payload is there, the badge has a digest, the first user
  -- with the digest is active and authorized for the first tool with the name, and the tool is idle.
  pub check_access-authorized_iff :
      (state : ToolGuardState) (card_value tool_id : String)
      → (check_access outside state card_value tool_id ≡ authorized)
        ↔ IsAllowed state card_value tool_id
  check_access-authorized_iff state card_value tool_id =
      (access-IsAllowed state card_value tool_id, IsAllowed-access state card_value tool_id)
