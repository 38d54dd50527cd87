-- ===== src/Edge/Resources/Ingest.antt =====
-- edge/src/resources.rs: what the policy takes from the server's payloads, and which it drops as
-- stale. What each payload hands on to the allow-list is toolguard's and left out.
use cooperative_systems_spac.Prelude.{
  ℕ, ◌≤◌, ◌<◌, ◌≡◌, Bool, true, false, not, Option, none, some, List, [], ◌∷◌, ◌++◌, map, String,
  ltb, if◌then◌else◌, nat_eq, string_eq, Map, empty_map, insert, is_some_and, filter, filter_map, ℤ,
  arith, inl, inr, Bool-cases, Option-cases,
}
use mathlib.Core.List.{foldl}
use cooperative_systems_spac.CssLib.Wire.{ResourcePolicy, Principal, ResourcePolicyPayload}
use cooperative_systems_spac.Edge.Resources.{
  Kind, tool, door, parse_kind, Entry, Member, Policy, Outside,
}

-- The compiled doors of `doors/state`.
pub record CompiledDoor : Type 0 where
  pub id : ℕ
  pub name : String
  pub enabled : Bool
  pub unlock_duration_ms : ℤ
  pub allow_cards : List String
  pub deny_cards : List String
  pub hold_unlock_until : Option ℕ

pub record DoorStateSnapshot : Type 0 where
  pub snapshot_at : ℕ
  pub doors : List CompiledDoor

unfoldable pub from_policy : Outside → ResourcePolicy → Option Entry
unfolding parse_kind
from_policy outside p = elim (outside.parse_uuid p.id) [
  | none ↦ none
  | some id ↦ some (record {
    id = id;
    external_id = p.external_id;
    kind = parse_kind p.kind;
    session_profile = p.session_profile;
    status = p.status;
    requires_online = p.requires_online;
    enabled = p.enabled;
    pulse_ms = p.pulse_ms;
    allow = p.allow;
    deny = p.deny;
    hold_until = elim p.hold_until [ none ↦ none | some t ↦ outside.parse_instant t ];
  })
]

unfoldable pub from_compiled_door : CompiledDoor → Entry
from_compiled_door d = record {
  id = d.id;
  external_id = none;
  kind = door;
  session_profile = "";
  status = "";
  requires_online = false;
  enabled = d.enabled;
  pulse_ms = some d.unlock_duration_ms;
  allow = d.allow_cards;
  deny = d.deny_cards;
  hold_until = d.hold_unlock_until;
}

unfoldable pub from_principal : Outside → Principal → Member
from_principal outside p = record {
  digest = p.digest;
  full_name = p.full_name;
  is_active = p.is_active;
  authorized = filter_map outside.parse_uuid p.authorized;
}

unfoldable pub is_stale : Policy → ℕ → Bool
is_stale p stamp = is_some_and (λ applied. ltb stamp applied) p.applied_at

abbrev pub same_kind : Kind → Kind → Bool
same_kind tool tool = true
same_kind door door = true
same_kind _ _ = false

unfoldable pub replace_kind : Kind → List Entry → Policy → Policy
replace_kind kind entries p = record p {
  entries = filter (λ (e : Entry). not (same_kind e.kind kind)) p.entries ++ entries;
}

unfoldable pub apply_doors_alias : DoorStateSnapshot → Policy → Policy
unfolding is_stale from_compiled_door replace_kind
apply_doors_alias snapshot p =
    if is_stale p snapshot.snapshot_at
    then p
    else replace_kind door (map from_compiled_door snapshot.doors) (record p {
      applied_at = some snapshot.snapshot_at;
      names =
          foldl (λ (m : Map ℕ String) (d : CompiledDoor). insert d.id d.name m) p.names
            snapshot.doors;
    })

-- The body of `apply_policy` once the payload is not stale.
unfoldable pub take_policy : Outside → ResourcePolicyPayload → Policy → Policy
unfolding from_policy from_principal
take_policy outside payload p = record p {
  entries = filter_map (from_policy outside) payload.resources;
  names =
      foldl
        (λ (m : Map ℕ String) (r : ResourcePolicy). elim (from_policy outside r) [
          | none ↦ m
          | some e ↦ insert e.id r.name m
        ])
        empty_map payload.resources;
  members = map (from_principal outside) payload.principals;
}

unfoldable pub apply_policy : Outside → ResourcePolicyPayload → Policy → Policy
unfolding is_stale take_policy
apply_policy outside payload p = elim (outside.parse_instant payload.as_of) [
  | none ↦ take_policy outside payload p
  | some stamp ↦
      if is_stale p stamp
      then p
      else take_policy outside payload (record p { applied_at = some stamp })
]

pub data Payload : Type 0 where
  policy : ResourcePolicyPayload → Payload
  doors : DoorStateSnapshot → Payload

unfoldable pub step : Outside → Policy → Payload → Policy
step outside p (policy payload) = apply_policy outside payload p
step outside p (doors snapshot) = apply_doors_alias snapshot p

unfoldable pub run : Outside → Policy → List Payload → Policy
unfolding step
run outside p payloads = foldl (step outside) p payloads

-- Payloads stamped before `n` are stale.
abbrev IsSince : Policy → ℕ → Type 0
IsSince p n = (t : ℕ) × (p.applied_at ≡ some t) × (n ≤ t)

apply_doors_alias-applied :
    (snapshot : DoorStateSnapshot) (p : Policy)
    → IsSince (apply_doors_alias snapshot p) snapshot.snapshot_at
unfolding apply_doors_alias is_stale replace_kind
apply_doors_alias-applied snapshot p = elim (Option-cases p.applied_at) [
  | inl n ↦ (snapshot.snapshot_at, ground arith, omega arith)
  | inr (t, e) ↦ elim (Bool-cases (ltb snapshot.snapshot_at t)) [
    | inl old ↦ (t, ground arith, ground arith)
    | inr new ↦ (snapshot.snapshot_at, ground arith, omega arith)
  ]
]

step-IsSince :
    (outside : Outside) (p : Policy) (n : ℕ) (payload : Payload)
    → IsSince p n
    → IsSince (step outside p payload) n
unfolding step apply_doors_alias apply_policy take_policy is_stale replace_kind
step-IsSince outside p n (doors snapshot) (t, e, le) =
    elim (Bool-cases (ltb snapshot.snapshot_at t)) [
      | inl old ↦ (t, ground arith, le)
      | inr new ↦ (snapshot.snapshot_at, ground arith, ground arith)
    ]
step-IsSince outside p n (policy payload) (t, e, le) =
    elim (Option-cases (outside.parse_instant payload.as_of)) [
      | inl none_read ↦ (t, ground arith, le)
      | inr (stamp, r) ↦ elim (Bool-cases (ltb stamp t)) [
        | inl old ↦ (t, ground arith, le)
        | inr new ↦ (stamp, ground arith, ground arith)
      ]
    ]

run-IsSince :
    (outside : Outside) (p : Policy) (n : ℕ) (payloads : List Payload)
    → IsSince p n
    → IsSince (run outside p payloads) n
unfolding run
run-IsSince outside p n [] h = h
run-IsSince outside p n (x ∷ xs) h =
    run-IsSince outside (step outside p x) n xs (step-IsSince outside p n x h)

-- After a doors snapshot has arrived, whether it was applied or dropped, and any payloads with doors
-- after it, a doors snapshot with an earlier stamp changes nothing.
pub replay-ignored :
    (outside : Outside) (p : Policy) (new old : DoorStateSnapshot) (payloads : List Payload)
    → old.snapshot_at < new.snapshot_at
    → apply_doors_alias old (run outside (apply_doors_alias new p) payloads)
      ≡ run outside (apply_doors_alias new p) payloads
unfolding apply_doors_alias is_stale
replay-ignored outside p new old payloads before =
    let (t, e, le) =
      run-IsSince outside (apply_doors_alias new p) new.snapshot_at payloads
        (apply_doors_alias-applied new p) in
    ground (arith, e)
