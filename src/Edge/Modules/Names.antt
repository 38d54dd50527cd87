-- ===== src/Edge/Modules/Names.antt =====
-- edge/src/modules.rs: a tool goes by its server's id and by its external id; its session is one.
use cooperative_systems_spac.Prelude.{
  ℕ, ◌≡◌, refl, ap, sym, ◌∙◌, false, ◌||◌, Option, none, some, String, ltb, ◌==◌, string_eq, ==_iff,
  ==_refl, find, is_none_or, arith, inl, inr, Option-cases, In, find-holds, find-In, find-none,
  any_of_In,
}
use cooperative_systems_spac.CssLib.Wire.{ToolModuleTool, ToolModuleStatePayload}
use cooperative_systems_spac.Edge.Modules.{
  ModuleState, resolve, wiring_of, tool_key, open_session, close_session, in_use,
}
use cooperative_systems_spac.Edge.Modules.Leases.{tool_key-same}

module _ (p : ToolModuleStatePayload) where
  abbrev by_id : String → Option ToolModuleTool
  by_id id = find (λ (t : ToolModuleTool). t.tool_id == id) p.tools

  resolve-In : (name : String) (t : ToolModuleTool) → resolve p name ≡ some t → In t p.tools
  unfolding resolve
  resolve-In name t h = elim (Option-cases (by_id name)) [
    | inl e ↦ find-In _ p.tools (rw e at h)
    | inr (u, e) ↦ find-In _ p.tools (e ∙ rw e at h)
  ]

  -- A listed id finds a tool with that id, whatever external ids other tools have.
  resolve-tool_id :
      (t : ToolModuleTool)
      → In t p.tools
      → (u : ToolModuleTool) × (resolve p t.tool_id ≡ some u) × (u.tool_id ≡ t.tool_id)
  unfolding resolve
  resolve-tool_id t m = elim (Option-cases (by_id t.tool_id)) [
    | inl e ↦
        let here =
          any_of_In (λ (u : ToolModuleTool). u.tool_id == t.tool_id) p.tools m
            (==_refl t.tool_id) in
        let nowhere = find-none (λ (u : ToolModuleTool). u.tool_id == t.tool_id) p.tools e in
        absurd (cc (here, nowhere))
    | inr (u, e) ↦ (
      u,
      rw e refl,
      (==_iff u.tool_id t.tool_id).0
          (find-holds (λ (u : ToolModuleTool). u.tool_id == t.tool_id) p.tools e),
    )
  ]

wiring_of-tool_id :
    (s : ModuleState) (name : String) (t : ToolModuleTool)
    → wiring_of s name ≡ some t
    → (u : ToolModuleTool) × (wiring_of s t.tool_id ≡ some u) × (u.tool_id ≡ t.tool_id)
unfolding wiring_of
wiring_of-tool_id s name t h = go s.snapshot h
  where
    go :
        (o : Option ToolModuleStatePayload)
        → elim o [ none ↦ none | some p ↦ resolve p name ] ≡ some t
        → (u : ToolModuleTool) × (elim o [ none ↦ none | some p ↦ resolve p t.tool_id ] ≡ some u)
          × (u.tool_id ≡ t.tool_id)
    go none g = cc
    go (some p) g = resolve-tool_id p t (resolve-In p name t g)

tool_key-found :
    (s : ModuleState) (name : String) (t : ToolModuleTool)
    → wiring_of s name ≡ some t
    → tool_key s name ≡ t.tool_id
unfolding tool_key
tool_key-found s name t h = rw (h, tool_key) refl

tool_key-unknown :
    (s : ModuleState) (name : String) → wiring_of s name ≡ none → tool_key s name ≡ name
unfolding tool_key
tool_key-unknown s name h = rw (h, tool_key) refl

-- The key of a key is the key.
pub tool_key-tool_key :
    (s : ModuleState) (name : String) → tool_key s (tool_key s name) ≡ tool_key s name
tool_key-tool_key s name = elim (Option-cases (wiring_of s name)) [
  | inl e ↦ ap (tool_key s) (tool_key-unknown s name e)
  | inr (t, e) ↦
      let (u, found, same) = wiring_of-tool_id s name t e in
      ap (tool_key s) (tool_key-found s name t e)
      ∙ tool_key-found s t.tool_id u found
      ∙ same
      ∙ sym (tool_key-found s name t e)
]

-- A session that is opened under any name of a tool counts under the tool's id, until it ends or for as
-- long as the server says so; and a stop under that id ends it for every name of the tool, at every
-- later time, whatever external ids other tools have.
pub open_session-close_session :
    (s : ModuleState) (name other : String) (opened stopped later : ℕ) (ends_at : Option ℕ)
    → tool_key s other ≡ tool_key s name
    → let running = open_session name opened ends_at s in
      let id = tool_key s name in
      (in_use running (tool_key running id) later
        ≡ (s.synced_in_use id || is_none_or (λ end. ltb later end) ends_at))
      × (in_use (close_session id stopped running) (tool_key running other) later ≡ false)
unfolding open_session close_session in_use
open_session-close_session s name other opened stopped later ends_at same =
    let running = open_session name opened ends_at s in
    let id = tool_key s name in
    let again : tool_key running id ≡ id =
      tool_key-same s running id refl ∙ tool_key-tool_key s name in
    let key : tool_key running other ≡ id = tool_key-same s running other refl ∙ same in
    (rw again (ground (arith, ==_refl id)), rw (again, key) (ground (arith, ==_refl id)))
