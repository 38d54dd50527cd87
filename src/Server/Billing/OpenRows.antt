-- ===== src/Server/Billing/OpenRows.antt =====
-- server/src/tool_billing.rs and server/src/database.rs: the row of a tool's open session under an
-- update.
use cooperative_systems_spac.Prelude.{
  ℕ, Bool, true, false, not, ◌&&◌, Option, none, some, List, [], ◌∷◌, ◌==◌, nat_eq, ==_refl, ◌≡◌,
  refl, inl, inr, filter, arith, Bool-cases,
}
use cooperative_systems_spac.Server.Billing.{
  ToolUsageSession, open_tool_session_for_tool, update_open, add_reported_seconds,
  add_reported_active_seconds, is_open,
}

-- A change of a row that keeps its key, its tool and its status.
abbrev pub Keeps : (ToolUsageSession → ToolUsageSession) → Type 0
Keeps f =
    (s : ToolUsageSession)
    → (((f s).id ≡ s.id) × ((f s).tool_id ≡ s.tool_id)) × ((f s).status ≡ s.status)

pub add_reported_seconds-Keeps :
    (seconds : ℕ) (sensed : Bool) → Keeps (add_reported_seconds seconds sensed)
unfolding add_reported_seconds
add_reported_seconds-Keeps seconds true s = ((refl, refl), refl)
add_reported_seconds-Keeps seconds false s = ((refl, refl), refl)

pub add_reported_active_seconds-Keeps : (busy : Option ℕ) → Keeps (add_reported_active_seconds busy)
unfolding add_reported_active_seconds
add_reported_active_seconds-Keeps none s = ((refl, refl), refl)
add_reported_active_seconds-Keeps (some time) s = ((refl, refl), refl)

module _ (f : ToolUsageSession → ToolUsageSession) (keeps : Keeps f) where
  -- The open session of a tool, once changed, is still the open session of the tool.
  pub open-update_open :
      (tool_id : ℕ) (sessions : List ToolUsageSession) (session : ToolUsageSession)
      → open_tool_session_for_tool sessions tool_id ≡ some session
      → open_tool_session_for_tool (update_open session.id f sessions) tool_id ≡ some (f session)
  unfolding open_tool_session_for_tool update_open
  open-update_open tool_id [] session h = cc
  open-update_open tool_id (s ∷ sessions) session h =
      elim (Bool-cases (s.tool_id == tool_id && is_open s.status)) [
        | inl here ↦
            let e : s ≡ session = ground (arith, h, here) in
            let kept = keeps s in rw (← e) (ground (arith, here, kept, ==_refl s.id))
        | inr there ↦
            let below = open-update_open tool_id sessions session (rw there at h) in
            let kept = keeps s in ground (arith, there, below, kept)
      ]

  -- Rows with other keys stay.
  pub others-update_open :
      (id : ℕ) (sessions : List ToolUsageSession)
      → filter (λ (s : ToolUsageSession). not (s.id == id)) (update_open id f sessions)
        ≡ filter (λ (s : ToolUsageSession). not (s.id == id)) sessions
  unfolding update_open
  others-update_open id [] = refl
  others-update_open id (s ∷ sessions) =
      let rest = others-update_open id sessions in
      let kept = (keeps s).0.0 in ground (arith, rest, kept)
