-- ===== src/Edge/Modules/Sessions.antt =====
-- edge/src/modules.rs: what the server's answers can do to a session that this edge has ended.
use cooperative_systems_spac.Prelude.{
  ℕ, ◌+◌, ◌<◌, ◌≡◌, refl, true, false, not, Option, List, [], ◌∷◌, map, String, ltb, ◌==◌,
  string_eq, ==_iff, ==_refl, contains, filter, retain, arith, inl, inr, Bool-cases,
}
use cooperative_systems_spac.Edge.Modules.{
  ModuleState, tool_key, close_session, reconcile_tracked, in_use, stopped_after,
}

-- The answer's claims, less those on resources that this edge stopped after it was asked for, do not
-- name such a resource.
filter-stopped :
    (stops : String → Option ℕ) (as_of : ℕ) (key : String) (claims : List String)
    → stopped_after stops as_of key ≡ true
    → contains (filter (λ k. not (stopped_after stops as_of k)) claims) key ≡ false
filter-stopped stops as_of key [] stopped = refl
filter-stopped stops as_of key (c ∷ claims) stopped =
    let rest = filter-stopped stops as_of key claims stopped in
    elim (Bool-cases (c == key)) [
      | inl same ↦
          let e : c ≡ key = (==_iff c key).0 same in
          let s : stopped_after stops as_of c ≡ true = rw e stopped in rw s rest
      | inr other ↦ ground (arith, rest)
    ]

-- A session that a stop at `stopped` ended stays ended, at every later time, when an answer arrives
-- within the grace that was asked for before the stop: whatever the answer says is in use.
pub close_session-reconcile_tracked :
    (s : ModuleState) (tool : String) (stopped now as_of later : ℕ)
    (in_use_ids tracked_ids : List String)
    → as_of < stopped
    → now < stopped + s.local_session_grace
    → in_use
        (reconcile_tracked in_use_ids tracked_ids now as_of (close_session tool stopped s))
        (tool_key s tool)
        later
      ≡ false
unfolding close_session reconcile_tracked in_use
close_session-reconcile_tracked s tool stopped now as_of later in_use_ids tracked_ids asked fresh =
    let key = tool_key s tool in
    let closed = close_session tool stopped s in
    let stops = retain (λ _ at. ltb now (at + s.local_session_grace)) closed.local_stops in
    let remembered : stopped_after stops as_of key ≡ true = ground (arith, ==_refl key) in
    let unclaimed = filter-stopped stops as_of key (map (tool_key closed) in_use_ids) remembered in
    ground (arith, ==_refl key)
