-- ===== src/Edge/Resources/Pulses.antt =====
-- edge/src/resources.rs: the pulse of a scan that is allowed, and the session that it opens.
use cooperative_systems_spac.Prelude.{
  ℕ, ◌+◌, ◌≡◌, refl, true, Option, none, some, List, String, ℤ, pos, pos_part, string_eq, ==_refl,
  or_else, unwrap_or, arith, inl, inr, Bool-cases, Option-cases, ap, sym, ◌∙◌,
}
use cooperative_systems_spac.Edge.Modules.{Session, tool_key, open_session}
use cooperative_systems_spac.Edge.Modules.Leases.{ResourceWiring, resource}
use cooperative_systems_spac.Edge.Power.{Amperes, is_locked}
use cooperative_systems_spac.Edge.Resources.{
  Policy, Resolved, SessionProfile, momentary, until_stopped, parse_kind, parse_profile, Entry,
  Member, allow, ResourceCache, Outside, find_entry, resolved_from, decide_member, decide_entry,
  strike, decide, session_end, start_session, millis,
}

-- The pulse of the entry, or else that of the strike binding in the wiring.
abbrev pub pulse_of : Option ResourceWiring → Entry → Option ℤ
pulse_of none e = e.pulse_ms
pulse_of (some w) e = elim e.pulse_ms [ some ms ↦ some ms | none ↦ w.strike_pulse_ms ]

-- The profile in the wiring, or else that of the entry.
abbrev pub profile_of : Option ResourceWiring → Entry → SessionProfile
profile_of none e = parse_profile e.session_profile e.kind
profile_of (some w) e = parse_profile w.session_profile (parse_kind w.kind)

abbrev pub end_of : SessionProfile → Option ℤ → ℕ → Option ℕ
end_of momentary strike_ms now = some (now + millis (pos_part (unwrap_or (pos 0) strike_ms)))
end_of until_stopped strike_ms now = none

abbrev opened_at : ℕ → Option ℕ → Option Session
opened_at now end = some (record { opened = now; ends_at = end })

module _ (outside : Outside) where
  resolved_from-found :
      (p : Policy) (w : Option ResourceWiring) (name : String) (e : Entry)
      → find_entry outside p name ≡ some e
      → (r : Resolved) × (resolved_from outside p w name ≡ some r)
        × (r.pulse_ms ≡ pulse_of w e)
        × (r.profile ≡ profile_of w e)
  unfolding resolved_from
  resolved_from-found p none name e found = (
    record {
      id = outside.uuid_text e.id;
      kind = e.kind;
      profile = parse_profile e.session_profile e.kind;
      pulse_ms = e.pulse_ms;
    },
    rw (found, resolved_from) refl,
    refl,
    refl,
  )
  resolved_from-found p (some w) name e found = (
    record {
      id = w.id;
      kind = parse_kind w.kind;
      profile = parse_profile w.session_profile (parse_kind w.kind);
      pulse_ms = or_else e.pulse_ms w.strike_pulse_ms;
    },
    rw (found, resolved_from) refl,
    elim (Option-cases e.pulse_ms) [ inl n ↦ rw n refl | inr (ms, y) ↦ rw y refl ],
    refl,
  )

  decide_member-strike :
      (members : List Member) (token : String) (entry : Option Entry) (strike_ms given : Option ℤ)
      → decide_member outside members token entry strike_ms ≡ allow given
      → strike_ms ≡ given
  unfolding decide_member
  decide_member-strike members token entry strike_ms given h = ground (arith, h)

  -- An answer that allows carries the pulse it was given, and an enabled entry is there.
  decide_entry-strike :
      (members : List Member) (token : String) (now : ℕ) (entry : Option Entry)
      (strike_ms given : Option ℤ)
      → decide_entry outside members token now entry strike_ms ≡ allow given
      → (strike_ms ≡ given) × ((e : Entry) × (entry ≡ some e) × (e.enabled ≡ true))
  unfolding decide_entry decide_member
  decide_entry-strike members token now none strike_ms given h = absurd (ground (arith, h))
  decide_entry-strike members token now (some e) strike_ms given h =
      (ground (arith, h), (e, refl, ground (arith, h)))

  module _ {amperes : Amperes} where
    strike-resolved :
        (s : ResourceCache amperes) (name : String) (r : Resolved)
        → resolved_from outside s.policy (resource s.wiring name) name ≡ some r
        → strike outside s name ≡ r.pulse_ms
    unfolding strike
    strike-resolved s name r h = rw (h, strike) refl

    session_end-resolved :
        (s : ResourceCache amperes) (name : String) (now : ℕ) (r : Resolved)
        (profile : SessionProfile) (given : Option ℤ)
        → resolved_from outside s.policy (resource s.wiring name) name ≡ some r
        → r.profile ≡ profile
        → r.pulse_ms ≡ given
        → session_end outside s name now ≡ end_of profile given now
    unfolding session_end
    session_end-resolved s name now r momentary given h same pulse =
        rw (h, session_end) (rw (same, pulse) refl)
    session_end-resolved s name now r until_stopped given h same pulse =
        rw (h, session_end) (rw same refl)

    start_session-opens :
        (s : ResourceCache amperes) (name : String) (now : ℕ)
        → (start_session outside name now s).wiring.local_sessions (tool_key s.wiring name)
          ≡ some (record { opened = now; ends_at = session_end outside s name now })
    unfolding start_session open_session
    start_session-opens s name now = rw (==_refl (tool_key s.wiring name)) refl

    -- A scan that is allowed finds an enabled entry, and carries the pulse of that entry, or, where it
    -- has none, the one of the strike binding in the wiring. The session that such a scan opens ends
    -- when that pulse does, where the wiring's profile (the entry's, where there is no wiring) is
    -- momentary, and otherwise has no end.
    pub decide-start_session :
        (s : ResourceCache amperes) (name card : String) (now : ℕ) (given : Option ℤ)
        → decide outside s name card now ≡ allow given
        → let wiring = resource s.wiring name in
          (e : Entry) × (find_entry outside s.policy name ≡ some e)
          × (e.enabled ≡ true)
          × (given ≡ pulse_of wiring e)
          × ((start_session outside name now s).wiring.local_sessions (tool_key s.wiring name)
              ≡ some (record { opened = now; ends_at = end_of (profile_of wiring e) given now }))
    unfolding decide
    decide-start_session s name card now given h = elim (Bool-cases (is_locked s.power name)) [
      | inl locked ↦ absurd (ground (arith, h, locked))
      | inr free ↦
          let token = unwrap_or "" (outside.wire_digest_hex card) in
          let answer : decide_entry outside s.policy.members token now
                (find_entry outside s.policy name) (strike outside s name)
              ≡ allow given =
            rw free at h in
          let (carried, (e, found, enabled)) =
            decide_entry-strike s.policy.members token now (find_entry outside s.policy name)
              (strike outside s name) given answer in
          let (r, resolved, pulse, profile) =
            resolved_from-found s.policy (resource s.wiring name) name e found in
          let struck : given ≡ pulse_of (resource s.wiring name) e =
            sym carried ∙ strike-resolved s name r resolved ∙ pulse in
          (
            e,
            found,
            enabled,
            struck,
            start_session-opens s name now
                ∙ ap (λ (end : Option ℕ). opened_at now end)
                    (session_end-resolved s name now r (profile_of (resource s.wiring name) e) given
                      resolved profile (pulse ∙ sym struck)),
          )
    ]
