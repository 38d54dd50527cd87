-- ===== src/Cmi5/Manifest/ParseUnits.antt =====
-- cmi5/src/manifest.rs: reading an AU, a block with what it holds, and the whole document.
use cooperative_systems_spac.Prelude.{
  ℕ, zero, suc, Bool, true, false, Option, none, some, List, [], ◌∷◌, String, ◌==◌, string_eq,
  Result, ok, err, ◌>>=◌, ok_or,
}
use cooperative_systems_spac.Cmi5.Manifest.{
  ManifestError, MoveOn, parse_move_on, LaunchMethod, parse_launch_method, LangString,
  AssignableUnit,
}
use cooperative_systems_spac.Cmi5.Manifest.Events.{
  Event, Attributes, Read, attr, Entities, parse_text, skip_to_end,
}
use cooperative_systems_spac.Cmi5.Manifest.Parse.{
  no_fuel, id_of, parse_langstrings, parse_objective_refs,
}

-- What the standard library does with an `f64`: its text, the number in a text, and whether it lies in
-- `0.0..=1.0`.
pub record Floats (F64 : Type 0) : Type 0 where
  pub to_text : F64 → String
  pub parse_f64 : String → Option F64
  pub is_fraction : F64 → Bool

-- The variables of `parse_au`'s loop.
pub record Draft : Type 0 where
  pub title : List LangString
  pub description : List LangString
  pub objective_ids : List String
  pub url : Option String
  pub launch_parameters : Option String
  pub entitlement_key : Option String

abbrev pub no_draft : Draft
no_draft = record {
  title = [];
  description = [];
  objective_ids = [];
  url = none;
  launch_parameters = none;
  entitlement_key = none;
}

module _ {F64 : Type 0} (floats : Floats F64) where
  -- `s.parse::<f64>().ok().filter(|v| (0.0..=1.0).contains(v))`
  unfoldable pub parse_score : String → Result ManifestError F64
  parse_score s = elim (floats.parse_f64 s) [
    | none ↦ err (ManifestError.bad_mastery_score s)
    | some v ↦ elim (floats.is_fraction v) [
      | true ↦ ok v
      | false ↦ err (ManifestError.bad_mastery_score s)
    ]
  ]

-- A part of the tag that may be missing.
abbrev pub optional :
    {A : Type 0}
    → (String → Result ManifestError A)
    → Option String
    → Result ManifestError (Option A)
optional parse none = ok none
optional parse (some s) = parse s >>= λ a. ok (some a)

abbrev pub move_on_of : Option String → Result ManifestError MoveOn
move_on_of none = ok MoveOn.not_applicable
move_on_of (some s) = parse_move_on s

module _ (entities : Entities) where
  unfoldable pub parse_au_parts : ℕ → Draft → List Event → Read Draft
  unfolding parse_langstrings
  parse_au_parts zero d events = err no_fuel
  parse_au_parts (suc fuel) d [] = err (ManifestError.unexpected_eof "au")
  parse_au_parts (suc fuel) d (Event.start name attributes ∷ events) = elim (name == "title") [
    | true ↦ parse_langstrings entities fuel "title" [] events >>= λ (v, rest).
        parse_au_parts fuel (record d { title = v }) rest
    | false ↦ elim (name == "description") [
      | true ↦ parse_langstrings entities fuel "description" [] events >>= λ (v, rest).
          parse_au_parts fuel (record d { description = v }) rest
      | false ↦ elim (name == "objectives") [
        | true ↦ parse_objective_refs [] events >>= λ (v, rest).
            parse_au_parts fuel (record d { objective_ids = v }) rest
        | false ↦ elim (name == "url") [
          | true ↦ parse_text entities "url" "" events >>= λ (v, rest).
              parse_au_parts fuel (record d { url = some v }) rest
          | false ↦ elim (name == "launchParameters") [
            | true ↦ parse_text entities "launchParameters" "" events >>= λ (v, rest).
                parse_au_parts fuel (record d { launch_parameters = some v }) rest
            | false ↦ elim (name == "entitlementKey") [
              | true ↦ parse_text entities "entitlementKey" "" events >>= λ (v, rest).
                  parse_au_parts fuel (record d { entitlement_key = some v }) rest
              | false ↦ skip_to_end name 0 events >>= λ rest. parse_au_parts fuel d rest
            ]
          ]
        ]
      ]
    ]
  ]
  parse_au_parts (suc fuel) d (Event.empty name attributes ∷ events) = elim (name == "url") [
    | true ↦ parse_au_parts fuel (record d { url = some "" }) events
    | false ↦ elim (name == "launchParameters") [
      | true ↦ parse_au_parts fuel (record d { launch_parameters = some "" }) events
      | false ↦ elim (name == "entitlementKey") [
        | true ↦ parse_au_parts fuel (record d { entitlement_key = some "" }) events
        | false ↦ parse_au_parts fuel d events
      ]
    ]
  ]
  parse_au_parts (suc fuel) d (Event.end_tag name ∷ events) = elim (name == "au") [
    | true ↦ ok (d, events)
    | false ↦ parse_au_parts fuel d events
  ]
  parse_au_parts (suc fuel) d (Event.fault e ∷ events) = err e
  parse_au_parts (suc fuel) d (_ ∷ events) = parse_au_parts fuel d events

module _ {F64 : Type 0} (entities : Entities) (floats : Floats F64) where
  -- The tag of an AU, without its parts.
  abbrev pub tag_of :
      Attributes → Result ManifestError (String × MoveOn × Option F64 × Option LaunchMethod)
  tag_of attributes = do
    id ← id_of "au" attributes
    move_on_text ← attr "moveOn" attributes
    move_on ← move_on_of move_on_text
    score_text ← attr "masteryScore" attributes
    score ← optional (parse_score floats) score_text
    method_text ← attr "launchMethod" attributes
    method ← optional parse_launch_method method_text
    ok (id, move_on, score, method)

  abbrev pub unit_of :
      String × MoveOn × Option F64 × Option LaunchMethod → Draft → String → AssignableUnit F64
  unit_of (id, move_on, score, method) d url = record {
    id = id;
    move_on = move_on;
    mastery_score = score;
    launch_method = method;
    title = d.title;
    description = d.description;
    objective_ids = d.objective_ids;
    url = url;
    launch_parameters = d.launch_parameters;
    entitlement_key = d.entitlement_key;
  }

  unfoldable pub parse_au : ℕ → Attributes → Bool → List Event → Read (AssignableUnit F64)
  unfolding parse_au_parts parse_score
  parse_au fuel attributes empty events = tag_of attributes >>= λ tag. elim empty [
    | true ↦ err (ManifestError.missing_element "url")
    | false ↦ parse_au_parts entities fuel no_draft events >>= λ (d, rest).
        ok_or d.url (ManifestError.missing_element "url") >>= λ url. ok (unit_of tag d url, rest)
  ]
