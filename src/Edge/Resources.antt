-- ===== src/Edge/Resources.antt =====
-- edge/src/resources.rs, `ResourceCache`: the one decision for a badge (`decide`), sessions, and the
-- Open Access hold with `hold_pulse_ms` of edge/src/doors.rs.
pub mod Holds
pub mod Ingest
pub mod Cadence
pub mod Pulses
mod Examples
use cooperative_systems_spac.Prelude.{
  ℕ, ◌+◌, ◌≡◌, refl, Bool, true, false, ◌&&◌, ◌||◌, not, Option, none, some, List, String, ltb,
  if◌then◌else◌, ◌==◌, nat_eq, string_eq, Map, is_some_and, or_else, unwrap_or, find, contains, ℤ,
  pos, pos_part, arith, ◌↔◌,
}
use cooperative_systems_spac.Edge.Modules.{ModuleState, millis, open_session}
use cooperative_systems_spac.Edge.Modules.Leases.{ResourceWiring, resource}
use cooperative_systems_spac.Edge.Power.{Amperes, PowerState, is_locked}

pub data Kind : Type 0 where
  tool door : Kind

unfoldable pub parse_kind : String → Kind
parse_kind named = if named == "door" then door else tool

pub data SessionProfile : Type 0 where
  momentary until_stopped : SessionProfile

unfoldable pub parse_profile : String → Kind → SessionProfile
parse_profile named kind =
    if named == "momentary"
    then momentary
    else if named == "until_stopped"
    then until_stopped
    else elim kind [ door ↦ momentary | tool ↦ until_stopped ]

pub record Resolved : Type 0 where
  pub id : String
  pub kind : Kind
  pub profile : SessionProfile
  pub pulse_ms : Option ℤ

-- The constants of `reason`.
pub data Reason : Type 0 where
  locked_out disabled denied_by_rule unknown_card user_inactive not_authorized : Reason
  unavailable : String → Reason

pub data ScanDecision : Type 0 where
  allow : Option ℤ → ScanDecision
  deny : Reason → ScanDecision
  ask_server : ScanDecision

pub record Entry : Type 0 where
  pub id : ℕ
  pub external_id : Option String
  pub kind : Kind
  pub session_profile : String
  pub status : String
  pub requires_online : Bool
  pub enabled : Bool
  pub pulse_ms : Option ℤ
  pub allow : List String
  pub deny : List String
  pub hold_until : Option ℕ

pub record Member : Type 0 where
  pub digest : String
  pub full_name : String
  pub is_active : Bool
  pub authorized : List ℕ

-- `applied_at` is the stamp of the last payload with doors that was applied.
pub record Policy : Type 0 where
  pub entries : List Entry
  pub names : Map ℕ String
  pub members : List Member
  pub applied_at : Option ℕ

-- The cache, without its digester: `hold_sent` says when each held door was last sent its pulse.
pub record ResourceCache (amperes : Amperes) : Type 0 where
  pub wiring : ModuleState
  pub power : PowerState amperes
  pub policy : Policy
  pub hold_sent : Map ℕ ℕ

-- The text of a Uuid and of an RFC 3339 instant, and the digest of a swiped card, which needs a
-- digester.
pub record Outside : Type 0 where
  pub parse_uuid : String → Option ℕ
  pub parse_instant : String → Option ℕ
  pub uuid_text : ℕ → String
  pub wire_digest_hex : String → Option String

-- The window is live by this device's clock.
abbrev pub is_held : ℕ → Entry → Bool
is_held now e = is_some_and (λ until. ltb now until) e.hold_until

abbrev pub is_allowed : ScanDecision → Bool
is_allowed (allow _) = true
is_allowed _ = false

-- A member of the policy with the card's digest, who is active, may start the resource, and finds
-- it idle or without a status.
abbrev pub member_may : List Member → String → Entry → Bool
member_may members token e =
    is_some_and (λ (m : Member). m.is_active && contains m.authorized e.id)
      (find (λ (m : Member). m.digest == token) members)
    && ((e.status == "") || (e.status == "idle"))

module _ (outside : Outside) where
  unfoldable pub named : Entry → String → Bool
  named e name = is_some_and (λ x. x == name) e.external_id || (outside.uuid_text e.id == name)

  unfoldable pub find_entry : Policy → String → Option Entry
  unfolding named
  find_entry p name = find (λ (e : Entry). named e name) p.entries

  -- The wiring first; a pulse of the policy goes before the one of the strike binding.
  unfoldable pub resolved_from : Policy → Option ResourceWiring → String → Option Resolved
  unfolding parse_kind parse_profile
  resolved_from p (some w) name = some (record {
    id = w.id;
    kind = parse_kind w.kind;
    profile = parse_profile w.session_profile (parse_kind w.kind);
    pulse_ms =
        or_else (elim (find_entry p name) [ none ↦ none | some e ↦ e.pulse_ms ]) w.strike_pulse_ms;
  })
  resolved_from p none name = elim (find_entry p name) [
    | none ↦ none
    | some e ↦ some (record {
      id = outside.uuid_text e.id;
      kind = e.kind;
      profile = parse_profile e.session_profile e.kind;
      pulse_ms = e.pulse_ms;
    })
  ]

  -- The arms after those of the entry alone: the members, by the digest of the card.
  unfoldable pub decide_member : List Member → String → Option Entry → Option ℤ → ScanDecision
  decide_member members token entry strike_ms =
      elim (find (λ (m : Member). m.digest == token) members) [
        | none ↦ deny unknown_card
        | some member ↦ if not member.is_active then deny user_inactive else elim entry [
          | none ↦ deny not_authorized
          | some e ↦
              if not (contains member.authorized e.id)
              then deny not_authorized
              else if not (e.status == "") && not (e.status == "idle")
              then deny (unavailable e.status)
              else allow strike_ms
        ]
      ]

  -- The arms of an entry, in their order.
  unfoldable pub decide_entry : List Member → String → ℕ → Option Entry → Option ℤ → ScanDecision
  decide_entry members token now none strike_ms = decide_member members token none strike_ms
  decide_entry members token now (some e) strike_ms =
      if not e.enabled
      then deny disabled
      else if contains e.deny token
      then deny denied_by_rule
      else if is_held now e
      then allow strike_ms
      else if contains e.allow token
      then allow strike_ms
      else if e.requires_online
      then ask_server
      else decide_member members token (some e) strike_ms

  module _ {amperes : Amperes} where
    unfoldable pub strike : ResourceCache amperes → String → Option ℤ
    unfolding resolved_from
    strike s name = elim (resolved_from s.policy (resource s.wiring name) name) [
      | none ↦ none
      | some r ↦ r.pulse_ms
    ]

    unfoldable pub decide : ResourceCache amperes → String → String → ℕ → ScanDecision
    unfolding decide_entry decide_member
    decide s name card now =
        if is_locked s.power name
        then deny locked_out
        else (let token = unwrap_or "" (outside.wire_digest_hex card) in
            decide_entry s.policy.members token now (find_entry s.policy name) (strike s name))

    -- The end of a momentary session is the end of its pulse.
    unfoldable pub session_end : ResourceCache amperes → String → ℕ → Option ℕ
    unfolding resolved_from
    session_end s name now = elim (resolved_from s.policy (resource s.wiring name) name) [
      | none ↦ none
      | some r ↦ elim r.profile [
        | momentary ↦ some (now + millis (pos_part (unwrap_or (pos 0) r.pulse_ms)))
        | until_stopped ↦ none
      ]
    ]

    unfoldable pub start_session : String → ℕ → ResourceCache amperes → ResourceCache amperes
    unfolding session_end
    start_session name now s = record s {
      wiring = open_session name now (session_end s name now) s.wiring;
    }

    -- `decide` allows exactly when the resource is not locked out by power, the policy has an entry
    -- for it which is enabled and does not deny the card, and one of these holds: the entry's Open
    -- Access window is live, it lists the card as allowed, or it does not insist on the server and
    -- the policy's member with the card is active, authorized, and the status is idle or empty.
    pub decide-allow_iff :
        (s : ResourceCache amperes) (name card : String) (now : ℕ)
        → let token = unwrap_or "" (outside.wire_digest_hex card) in
          is_allowed (decide s name card now) ≡ (
            not (is_locked s.power name)
            && is_some_and
                (λ e.
                  e.enabled
                  && not (contains e.deny token)
                  && (is_held now e
                      || contains e.allow token
                      || (not e.requires_online && member_may s.policy.members token e)))
                (find_entry s.policy name))
    unfolding decide
    decide-allow_iff s name card now = ground arith
