-- ===== src/Cmi5/Manifest/Write.antt =====
-- cmi5/src/manifest.rs: the writing of a course. Each function puts its events before those that are
-- written after it: a tag with the attributes that it is given, a text in the pieces in which the reader
-- delivers it. What the reader makes of a written attribute is in Manifest/Delivery.antt.
use Prim.Native.String.{◌++◌ as push_str}
use cooperative_systems_spac.Prelude.{Option, none, some, List, [], ◌∷◌, String, Result, ok, err}
use cooperative_systems_spac.Cmi5.Manifest.{
  ManifestError, move_on_text, LaunchMethod, launch_method_text, LangString, Course, Objective,
  AssignableUnit, Node, Nodes, CourseStructure,
}
use cooperative_systems_spac.Cmi5.Manifest.Events.{Event, Attributes, Entities, resolve}
use cooperative_systems_spac.Cmi5.Manifest.ParseUnits.{Floats}

-- The pieces of a written text: literal runs, and the references that stand for what is escaped.
pub data Piece : Type 0 where
  literal : String → Piece
  reference : String → Piece

abbrev pub piece_event : Piece → Event
piece_event (Piece.literal s) = Event.text s
piece_event (Piece.reference name) = Event.general_ref name

-- What pieces amount to, after what stands before them.
abbrev pub assemble : Entities → String → List Piece → Option String
assemble entities before [] = some before
assemble entities before (Piece.literal s ∷ ps) = assemble entities (push_str before s) ps
assemble entities before (Piece.reference name ∷ ps) = elim (resolve entities name) [
  | err e ↦ none
  | ok c ↦ assemble entities (push_str before c) ps
]

abbrev pub attribute : String → String → Result ManifestError (String × String)
attribute key value = ok (key, value)

abbrev pub optional_attribute : String → Option String → Attributes → Attributes
optional_attribute key none attributes = attributes
optional_attribute key (some value) attributes = attribute key value ∷ attributes

module _ (pieces : String → List Piece) where
  abbrev pub write_text : List Piece → List Event → List Event
  write_text [] rest = rest
  write_text (p ∷ ps) rest = piece_event p ∷ write_text ps rest

  unfoldable pub write_text_element : String → String → List Event → List Event
  write_text_element name value rest =
      Event.start name [] ∷ write_text (pieces value) (Event.end_tag name ∷ rest)

  unfoldable pub write_optional_element : String → Option String → List Event → List Event
  unfolding write_text_element
  write_optional_element name none rest = rest
  write_optional_element name (some value) rest = write_text_element name value rest

  -- The loop over the strings.
  abbrev pub write_each_langstring : List LangString → List Event → List Event
  write_each_langstring [] rest = rest
  write_each_langstring (s ∷ ss) rest =
      Event.start "langstring" (attribute "lang" s.lang ∷ [])
      ∷ write_text (pieces s.value) (Event.end_tag "langstring" ∷ write_each_langstring ss rest)

  unfoldable pub write_langstrings : String → List LangString → List Event → List Event
  write_langstrings wrapper [] rest = rest
  write_langstrings wrapper (s ∷ ss) rest =
      Event.start wrapper [] ∷ write_each_langstring (s ∷ ss) (Event.end_tag wrapper ∷ rest)

abbrev pub write_each_ref : List String → List Event → List Event
write_each_ref [] rest = rest
write_each_ref (id ∷ ids) rest =
    Event.empty "objective" (attribute "idref" id ∷ []) ∷ write_each_ref ids rest

unfoldable pub write_objective_refs : List String → List Event → List Event
write_objective_refs [] rest = rest
write_objective_refs (id ∷ ids) rest =
    Event.start "objectives" [] ∷ write_each_ref (id ∷ ids) (Event.end_tag "objectives" ∷ rest)

module _ (pieces : String → List Piece) where
  unfoldable pub write_course : Course → List Event → List Event
  unfolding write_langstrings
  write_course c rest =
      Event.start "course" (attribute "id" c.id ∷ [])
      ∷ write_langstrings pieces "title" c.title
          (write_langstrings pieces "description" c.description (Event.end_tag "course" ∷ rest))

  unfoldable pub write_each_objective : List Objective → List Event → List Event
  unfolding write_langstrings
  write_each_objective [] rest = rest
  write_each_objective (o ∷ os) rest =
      Event.start "objective" (attribute "id" o.id ∷ [])
      ∷ write_langstrings pieces "title" o.title (
          write_langstrings pieces "description" o.description
            (Event.end_tag "objective" ∷ write_each_objective os rest))

  -- `write_objectives`, which is not called for an empty list.
  unfoldable pub write_objectives : List Objective → List Event → List Event
  unfolding write_each_objective
  write_objectives [] rest = rest
  write_objectives (o ∷ os) rest =
      Event.start "objectives" []
      ∷ write_each_objective (o ∷ os) (Event.end_tag "objectives" ∷ rest)

module _ {F64 : Type 0} (floats : Floats F64) where
  abbrev pub score_text : Option F64 → Option String
  score_text none = none
  score_text (some m) = some (floats.to_text m)

  abbrev pub method_text : Option LaunchMethod → Option String
  method_text none = none
  method_text (some m) = some (launch_method_text m)

  abbrev pub au_attributes : AssignableUnit F64 → Attributes
  au_attributes u =
      attribute "id" u.id
      ∷ attribute "moveOn" (move_on_text u.move_on)
      ∷ optional_attribute "masteryScore" (score_text u.mastery_score)
          (optional_attribute "launchMethod" (method_text u.launch_method) [])

module _ {F64 : Type 0} (floats : Floats F64) (pieces : String → List Piece) where
  unfoldable pub write_au : AssignableUnit F64 → List Event → List Event
  unfolding write_langstrings write_objective_refs write_text_element write_optional_element
  write_au u rest =
      Event.start "au" (au_attributes floats u)
      ∷ write_langstrings pieces "title" u.title (
          write_langstrings pieces "description" u.description (
            write_objective_refs u.objective_ids (
              write_text_element pieces "url" u.url (
                write_optional_element pieces "launchParameters" u.launch_parameters (
                  write_optional_element pieces "entitlementKey" u.entitlement_key
                    (Event.end_tag "au" ∷ rest))))))

  unfoldable mutual
    unfolding write_langstrings write_objective_refs write_au

    pub write_node : Node F64 → List Event → List Event
    write_node (Node.au u) rest = write_au u rest
    write_node (Node.block b children) rest =
        Event.start "block" (attribute "id" b.id ∷ [])
        ∷ write_langstrings pieces "title" b.title (
            write_langstrings pieces "description" b.description (
              write_objective_refs b.objective_ids
                (write_nodes children (Event.end_tag "block" ∷ rest))))

    pub write_nodes : Nodes F64 → List Event → List Event
    write_nodes Nodes.nil rest = rest
    write_nodes (Nodes.cons node nodes) rest = write_node node (write_nodes nodes rest)

  unfoldable pub to_manifest_xml : CourseStructure F64 → List Event
  unfolding write_course write_objectives write_nodes
  to_manifest_xml cs =
      Event.start "courseStructure"
        (attribute "xmlns" "https://w3id.org/xapi/profiles/cmi5/v1/CourseStructure.xsd" ∷ [])
      ∷ write_course pieces cs.course (
          write_objectives pieces cs.objectives
            (write_nodes cs.nodes (Event.end_tag "courseStructure" ∷ [])))
