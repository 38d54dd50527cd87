-- ===== src/Cmi5/Manifest/Events.antt =====
-- cmi5/src/manifest.rs: the events of the XML reader and writer, and what is read off a tag and a leaf.
-- Names and keys are local names, without their prefix; `fault` is a read that fails, `other` an event
-- that no loop looks at, such as a comment, and the end of the list is the end of the document.
use cooperative_systems_spac.Prelude.{
  ℕ, zero, suc, Option, none, some, List, [], ◌∷◌, String, ◌==◌, string_eq, Result, ok, err,
  if◌then◌else◌,
}
use cooperative_systems_spac.Cmi5.Manifest.{ManifestError}
use Prim.Native.String.{◌++◌ as push_str}

abbrev pub Attributes : Type 0
Attributes = List (Result ManifestError (String × String))

pub data Event : Type 0 where
  start : String → Attributes → Event
  empty : String → Attributes → Event
  end_tag : String → Event
  text : String → Event
  cdata : String → Event
  general_ref : String → Event
  other : Event
  fault : ManifestError → Event

abbrev pub Read : Type 0 → Type 0
Read A = Result ManifestError (A × List Event)

-- The first attribute of the name; a malformed attribute before it is an error.
abbrev pub attr : String → Attributes → Result ManifestError (Option String)
attr want [] = ok none
attr want (err e ∷ attributes) = err e
attr want (ok (key, value) ∷ attributes) =
    if key == want then ok (some value) else attr want attributes

-- `resolve_char_ref` and `resolve_predefined_entity`
pub record Entities : Type 0 where
  pub resolve_char_ref : String → Result ManifestError (Option String)
  pub resolve_predefined_entity : String → Option String

unfoldable pub resolve : Entities → String → Result ManifestError String
resolve entities name = elim (entities.resolve_char_ref name) [
  | err e ↦ err e
  | ok (some c) ↦ ok c
  | ok none ↦ elim (entities.resolve_predefined_entity name) [
    | some replacement ↦ ok replacement
    | none ↦ err (ManifestError.xml name)
  ]
]

-- `text` is what has been read so far.
unfoldable pub parse_text : Entities → String → String → List Event → Read String
parse_text entities tag read [] = err (ManifestError.unexpected_eof "text")
parse_text entities tag read (Event.text s ∷ events) =
    parse_text entities tag (push_str read s) events
parse_text entities tag read (Event.cdata s ∷ events) =
    parse_text entities tag (push_str read s) events
parse_text entities tag read (Event.general_ref name ∷ events) = elim (resolve entities name) [
  | err e ↦ err e
  | ok c ↦ parse_text entities tag (push_str read c) events
]
parse_text entities tag read (Event.end_tag name ∷ events) =
    let rest = parse_text entities tag read events in
    if name == tag then ok (read, events) else rest
parse_text entities tag read (Event.fault e ∷ events) = err e
parse_text entities tag read (Event.start name attributes ∷ events) =
    parse_text entities tag read events
parse_text entities tag read (Event.empty name attributes ∷ events) =
    parse_text entities tag read events
parse_text entities tag read (Event.other ∷ events) = parse_text entities tag read events

-- `depth` is one less than the source's, which starts at 1 and ends at 0.
unfoldable pub skip_to_end : String → ℕ → List Event → Result ManifestError (List Event)
skip_to_end name depth [] = err (ManifestError.unexpected_eof "element")
skip_to_end name depth (Event.start n attributes ∷ events) =
    skip_to_end name (if n == name then suc depth else depth) events
skip_to_end name zero (Event.end_tag n ∷ events) =
    let rest = skip_to_end name 0 events in if n == name then ok events else rest
skip_to_end name (suc depth) (Event.end_tag n ∷ events) =
    skip_to_end name (if n == name then depth else suc depth) events
skip_to_end name depth (Event.fault e ∷ events) = err e
skip_to_end name depth (_ ∷ events) = skip_to_end name depth events
