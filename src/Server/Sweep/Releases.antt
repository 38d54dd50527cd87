-- ===== src/Server/Sweep/Releases.antt =====
-- server/src/session_sweep.rs, `sweep_once`: what a pass releases, and nothing else.
use cooperative_systems_spac.Prelude.{
  ℕ, ◌≡◌, refl, ◌∙◌, Bool, true, false, ◌&&◌, not, Option, List, [], ◌∷◌, String, nat_eq, string_eq,
  ◌==◌, ==_iff, ==_refl, ==_sym, if◌then◌else◌, any, filter, arith, inl, inr, Bool-cases,
}
use cooperative_systems_spac.Server.Billing.{
  Rounding, BillingConfig, Tool, ToolRateTier, is_abandoned,
}
use cooperative_systems_spac.Server.Sweep.{
  idle, is_in_use, ResourceSession, Floor, is_unclosed, rooms_to_release, close_resource_session,
  sweep_rooms, is_overdue, release, sweep_tools, get_inuse_tools, sweep_once,
}

module _ (round : Rounding) (config : BillingConfig) (is_member : ℕ → Bool)
    (tier_of : ℕ → ℕ → Option ToolRateTier) (reference : ℕ → String) (billing : Bool)
    (grace now : ℕ) (updated_at : ℕ → ℕ) (latest_activation : ℕ → Option (ℕ × Option ℕ)) where
  -- Some tool of the list with this key is past its cap and grace.
  abbrev pub overdue_in : ℕ → List Tool → Bool
  overdue_in id tools =
      any
        (λ (t : Tool).
          t.id == id
          && is_overdue round config is_member tier_of reference billing grace now updated_at
              latest_activation t)
        tools

  sweep_tools-status :
      (tools : List Tool) (f : Floor) (id : ℕ)
      → (sweep_tools round config is_member tier_of reference billing grace now updated_at
            latest_activation tools f).0.status
          id
        ≡ (if overdue_in id tools then idle else f.status id)
  unfolding sweep_tools release
  sweep_tools-status [] f id = refl
  sweep_tools-status (t ∷ tools) f id =
      elim (Bool-cases (
        is_overdue round config is_member tier_of reference billing grace now updated_at
          latest_activation t)) [
            | inr young ↦
                rw (young, sweep_tools) (sweep_tools-status tools f id ∙ ground (arith, young))
            | inl old ↦
                rw (old, sweep_tools)
                  (sweep_tools-status tools
                      (release round config is_member tier_of reference billing grace now updated_at
                        latest_activation t f)
                      id
                    ∙ ground (arith, old, ==_sym id t.id))
          ]

  overdue-in_use :
      (tools : List Tool) (f : Floor) (id : ℕ)
      → overdue_in id (
          get_inuse_tools round config is_member tier_of reference billing grace now updated_at
            latest_activation tools f)
        ≡ (is_in_use (f.status id) && overdue_in id tools)
  unfolding get_inuse_tools
  overdue-in_use [] f id = ground arith
  overdue-in_use (t ∷ tools) f id =
      let rest = overdue-in_use tools f id in
      elim (Bool-cases (t.id == id)) [
        | inl same ↦
            let e : t.id ≡ id = (==_iff t.id id).0 same in
            let its : is_in_use (f.status t.id) ≡ is_in_use (f.status id) = rw e refl in
            ground (arith, rest, same, its)
        | inr other ↦ ground (arith, rest, other)
      ]

-- A test of a session that is not closed, by its resource and its start.
abbrev pub open_with : (ℕ → ℕ → Bool) → ResourceSession → Bool
open_with q s = is_unclosed s && q s.resource_id s.opened_at

any-close :
    (q : ℕ → ℕ → Bool) (id now : ℕ) (by : String) (rooms : List ResourceSession)
    → any (open_with q) (close_resource_session id by now rooms).0
      ≡ any (open_with (λ r at. q r at && not (r == id))) rooms
unfolding close_resource_session
any-close q id now by [] = refl
any-close q id now by (s ∷ rooms) =
    let rest = any-close q id now by rooms in
    elim (Bool-cases (s.resource_id == id && is_unclosed s)) [
      | inl here ↦ rw here (ground (arith, rest, here))
      | inr other ↦ rw other (ground (arith, rest, other))
    ]

any-sweep_rooms :
    (q : ℕ → ℕ → Bool) (now : ℕ) (old rooms : List ResourceSession)
    → any (open_with q) (sweep_rooms now old rooms).0
      ≡ any
          (open_with
            (λ r at. q r at && not (any (λ (s : ResourceSession). r == s.resource_id) old)))
          rooms
unfolding sweep_rooms
any-sweep_rooms q now [] rooms = any_same rooms
  where
    any_same :
        (rooms : List ResourceSession)
        → any (open_with q) rooms ≡ any (open_with (λ r at. q r at && true)) rooms
    any_same [] = refl
    any_same (s ∷ rooms) = ground (arith, any_same rooms)
any-sweep_rooms q now (x ∷ old) rooms =
    any-sweep_rooms q now old (close_resource_session x.resource_id "sweep" now rooms).0
    ∙ any-close _ x.resource_id now "sweep" rooms
    ∙ any_split rooms
  where
    any_split :
        (rooms : List ResourceSession)
        → any
            (open_with (λ r at.
              (q r at && not (any (λ (s : ResourceSession). r == s.resource_id) old))
              && not (r == x.resource_id)))
            rooms
          ≡ any
              (open_with (λ r at.
                q r at && not (any (λ (s : ResourceSession). r == s.resource_id) (x ∷ old))))
              rooms
    any_split [] = refl
    any_split (s ∷ rooms) = ground (arith, any_split rooms)

none_left :
    (q : ℕ → ℕ → Bool) (old rooms : List ResourceSession)
    → ((r : ℕ)
        → any
            (λ (s : ResourceSession). r == s.resource_id)
            (filter
              (λ (s : ResourceSession). q s.resource_id s.opened_at)
              (filter is_unclosed rooms))
          ≡ true
        → any (λ (s : ResourceSession). r == s.resource_id) old ≡ true)
    → any
        (open_with (λ r at. q r at && not (any (λ (s : ResourceSession). r == s.resource_id) old)))
        rooms
      ≡ false
none_left q old [] h = refl
none_left q old (s ∷ rooms) h =
    let rest = none_left q old rooms (λ r there. h r (ground arith)) in
    elim (Bool-cases (is_unclosed s && q s.resource_id s.opened_at)) [
      | inr passed ↦ ground (arith, rest, passed)
      | inl caught ↦
          let found = h s.resource_id (ground (arith, caught, ==_refl s.resource_id)) in
          ground (arith, rest, found)
    ]

module _ (round : Rounding) (config : BillingConfig) (is_member : ℕ → Bool)
    (tier_of : ℕ → ℕ → Option ToolRateTier) (reference : ℕ → String) (billing : Bool)
    (grace now : ℕ) (updated_at : ℕ → ℕ) (latest_activation : ℕ → Option (ℕ × Option ℕ)) where
  -- A door's session that began before the cutoff of the default cap.
  abbrev pub is_old_room : List (ℕ × String) → ℕ → ℕ → Bool
  is_old_room kinds r at =
      any (λ (k : ℕ × String). k.1 == "door" && k.0 == r) kinds
      && is_abandoned config.default_max_session_minutes grace now at

  after-status :
      (tools : List Tool) (f : Floor) (id : ℕ)
      → (sweep_tools round config is_member tier_of reference billing grace now updated_at
            latest_activation
            (get_inuse_tools round config is_member tier_of reference billing grace now updated_at
              latest_activation tools f)
            f).0.status
          id
        ≡ (if is_in_use (f.status id)
              && overdue_in round config is_member tier_of reference billing grace now updated_at
                  latest_activation id tools
            then idle
            else f.status id)
  after-status tools f id =
      sweep_tools-status round config is_member tier_of reference billing grace now updated_at
        latest_activation _ f id
      ∙ rw
          (overdue-in_use round config is_member tier_of reference billing grace now updated_at
            latest_activation tools f id)
          refl

  after-rooms :
      (kinds : List (ℕ × String)) (rooms : List ResourceSession)
      → any
          (open_with (is_old_room kinds))
          (sweep_rooms now
            (rooms_to_release
              (filter is_unclosed rooms)
              kinds
              (λ at. is_abandoned config.default_max_session_minutes grace now at))
            rooms).0
        ≡ false
  unfolding rooms_to_release
  after-rooms kinds rooms =
      any-sweep_rooms (is_old_room kinds) now _ rooms
      ∙ none_left (is_old_room kinds) _ rooms (λ r there. there)

  -- After a pass, a tool's status is idle if it was in use and the tool is past its cap and the grace
  -- since its last activation (or its last change, where it has none), and what it was otherwise; and
  -- no room's session that is past the default cap and the grace is still open. Both hold with billing
  -- and without.
  pub sweep_once-releases :
      (tools : List Tool) (tool_of : ℕ → Option Tool) (kinds : List (ℕ × String)) (f : Floor)
      (id : ℕ)
      → ((sweep_once round config is_member tier_of reference billing grace now updated_at
              latest_activation tools tool_of kinds f).0.status
            id
          ≡ (if is_in_use (f.status id)
                && overdue_in round config is_member tier_of reference billing grace now updated_at
                    latest_activation id tools
              then idle
              else f.status id))
        × (any
              (open_with (is_old_room kinds))
              (sweep_once round config is_member tier_of reference billing grace now updated_at
                latest_activation tools tool_of kinds f).0.rooms
            ≡ false)
  unfolding sweep_once
  sweep_once-releases tools tool_of kinds f id = (
    after-status tools f id,
    after-rooms kinds
        (sweep_tools round config is_member tier_of reference billing grace now updated_at
          latest_activation
          (get_inuse_tools round config is_member tier_of reference billing grace now updated_at
            latest_activation tools f)
          f).0.rooms,
  )
