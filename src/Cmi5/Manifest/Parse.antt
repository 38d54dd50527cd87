-- ===== src/Cmi5/Manifest/Parse.antt =====
-- cmi5/src/manifest.rs: the loops that read a course. Each runs on fuel, one unit for an event that it
-- takes itself, and what it reads within an event has the fuel that is left; `no_fuel` is an error
-- of the model alone.
use cooperative_systems_spac.Prelude.{
  ℕ, zero, suc, Bool, true, false, Option, none, some, List, [], ◌∷◌, ◌++◌, String, ◌==◌, string_eq,
  Result, ok, err, ◌>>=◌, ok_or, unwrap_or, or_else,
}
use cooperative_systems_spac.Cmi5.Manifest.{ManifestError, LangString, Course, Objective}
use cooperative_systems_spac.Cmi5.Manifest.Events.{
  Event, Attributes, Read, attr, Entities, parse_text, skip_to_end,
}

abbrev pub no_fuel : ManifestError
no_fuel = ManifestError.xml "fuel"

-- `attr(start, "id")?.ok_or(...)`
abbrev pub id_of : String → Attributes → Result ManifestError String
id_of element attributes = do
  found ← attr "id" attributes
  ok_or found (ManifestError.missing_attribute element "id")

module _ (entities : Entities) where
  -- `<langstring>`s up to the end of `tag`
  unfoldable pub parse_langstrings :
      ℕ → String → List LangString → List Event → Read (List LangString)
  parse_langstrings zero tag out events = err no_fuel
  parse_langstrings (suc fuel) tag out [] = err (ManifestError.unexpected_eof "langstring")
  parse_langstrings (suc fuel) tag out (Event.start name attributes ∷ events) =
      elim (name == "langstring") [
        | false ↦ parse_langstrings fuel tag out events
        | true ↦ attr "lang" attributes >>= λ lang.
            parse_text entities "langstring" "" events >>= λ (value, rest).
            parse_langstrings fuel tag
              (out ++ (record { lang = unwrap_or "" lang; value = value } ∷ [])) rest
      ]
  parse_langstrings (suc fuel) tag out (Event.empty name attributes ∷ events) =
      elim (name == "langstring") [
        | false ↦ parse_langstrings fuel tag out events
        | true ↦ attr "lang" attributes >>= λ lang.
            parse_langstrings fuel tag
              (out ++ (record { lang = unwrap_or "" lang; value = "" } ∷ [])) events
      ]
  parse_langstrings (suc fuel) tag out (Event.end_tag name ∷ events) = elim (name == tag) [
    | true ↦ ok (out, events)
    | false ↦ parse_langstrings fuel tag out events
  ]
  parse_langstrings (suc fuel) tag out (Event.fault e ∷ events) = err e
  parse_langstrings (suc fuel) tag out (_ ∷ events) = parse_langstrings fuel tag out events

-- The references of an `<objectives>`; an `idref` that is there counts, and an `id` otherwise.
abbrev pub reference : Attributes → Result ManifestError (Option String)
reference attributes = do
  idref ← attr "idref" attributes
  id ← attr "id" attributes
  ok (or_else idref id)

abbrev pub push_some : List String → Option String → List String
push_some refs none = refs
push_some refs (some r) = refs ++ (r ∷ [])

unfoldable pub parse_objective_refs : List String → List Event → Read (List String)
parse_objective_refs refs [] = err (ManifestError.unexpected_eof "objectives")
parse_objective_refs refs (Event.start name attributes ∷ events) = elim (name == "objective") [
  | false ↦ parse_objective_refs refs events
  | true ↦ reference attributes >>= λ r. parse_objective_refs (push_some refs r) events
]
parse_objective_refs refs (Event.empty name attributes ∷ events) = elim (name == "objective") [
  | false ↦ parse_objective_refs refs events
  | true ↦ reference attributes >>= λ r. parse_objective_refs (push_some refs r) events
]
parse_objective_refs refs (Event.end_tag name ∷ events) = elim (name == "objectives") [
  | true ↦ ok (refs, events)
  | false ↦ parse_objective_refs refs events
]
parse_objective_refs refs (Event.fault e ∷ events) = err e
parse_objective_refs refs (_ ∷ events) = parse_objective_refs refs events

-- The `title` and the `description` that a loop has read.
pub record Labels : Type 0 where
  pub title : List LangString
  pub description : List LangString

abbrev pub no_labels : Labels
no_labels = record { title = []; description = [] }

module _ (entities : Entities) where
  -- The loop of `parse_course`, and of an `<objective>` that is declared: up to the end of `tag`.
  unfoldable pub parse_labels : ℕ → String → Labels → List Event → Read Labels
  unfolding parse_langstrings
  parse_labels zero tag l events = err no_fuel
  parse_labels (suc fuel) tag l [] = err (ManifestError.unexpected_eof tag)
  parse_labels (suc fuel) tag l (Event.start name attributes ∷ events) = elim (name == "title") [
    | true ↦ parse_langstrings entities fuel "title" [] events >>= λ (title, rest).
        parse_labels fuel tag (record l { title = title }) rest
    | false ↦ elim (name == "description") [
      | true ↦ parse_langstrings entities fuel "description" [] events >>= λ (description, rest).
          parse_labels fuel tag (record l { description = description }) rest
      | false ↦ skip_to_end name 0 events >>= λ rest. parse_labels fuel tag l rest
    ]
  ]
  parse_labels (suc fuel) tag l (Event.end_tag name ∷ events) = elim (name == tag) [
    | true ↦ ok (l, events)
    | false ↦ parse_labels fuel tag l events
  ]
  parse_labels (suc fuel) tag l (Event.fault e ∷ events) = err e
  parse_labels (suc fuel) tag l (_ ∷ events) = parse_labels fuel tag l events

  abbrev pub course_of : String → Labels → Course
  course_of id l = record { id = id; title = l.title; description = l.description }

  unfoldable pub parse_course : ℕ → Attributes → Bool → List Event → Read Course
  unfolding parse_labels
  parse_course fuel attributes empty events = id_of "course" attributes >>= λ id. elim empty [
    | true ↦ ok (course_of id no_labels, events)
    | false ↦ parse_labels fuel "course" no_labels events >>= λ (l, rest). ok (course_of id l, rest)
  ]

  abbrev pub objective_of : String → Labels → Objective
  objective_of id l = record { id = id; title = l.title; description = l.description }

  unfoldable pub parse_objectives : ℕ → List Objective → List Event → Read (List Objective)
  unfolding parse_labels
  parse_objectives zero out events = err no_fuel
  parse_objectives (suc fuel) out [] = err (ManifestError.unexpected_eof "objectives")
  parse_objectives (suc fuel) out (Event.start name attributes ∷ events) =
      elim (name == "objective") [
        | false ↦ parse_objectives fuel out events
        | true ↦ id_of "objective" attributes >>= λ id.
            parse_labels fuel "objective" no_labels events >>= λ (l, rest).
            parse_objectives fuel (out ++ (objective_of id l ∷ [])) rest
      ]
  parse_objectives (suc fuel) out (Event.end_tag name ∷ events) = elim (name == "objectives") [
    | true ↦ ok (out, events)
    | false ↦ parse_objectives fuel out events
  ]
  parse_objectives (suc fuel) out (Event.fault e ∷ events) = err e
  parse_objectives (suc fuel) out (_ ∷ events) = parse_objectives fuel out events
