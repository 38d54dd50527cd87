-- ===== src/Cmi5/Conformance/Examples.antt =====
-- A course of a block with a unit in it, and of a unit beside it.
use cooperative_systems_spac.Prelude.{ℕ, [], ◌∷◌, none, ◌≡◌, refl, is_empty}
use cooperative_systems_spac.Cmi5.Manifest.{MoveOn, AssignableUnit, Node, Nodes, CourseStructure}
use cooperative_systems_spac.Cmi5.Conformance.{
  ConformanceError, validate_block, validate_course_structure,
}
use cooperative_systems_spac.Cmi5.Conformance.Conformant.{
  is_conformant, validate_course_structure-is_conformant,
}
use cooperative_systems_spac.Cmi5.Conformance.Text.{is_iri, is_blank}
use Prim.Native.String.{String}

abbrev unit : String → AssignableUnit ℕ
unit id = record {
  id = id;
  move_on = MoveOn.passed;
  mastery_score = none;
  launch_method = none;
  title = [];
  description = [];
  objective_ids = "https://x/obj/1" ∷ [];
  url = "a.html";
  launch_parameters = none;
  entitlement_key = none;
}

abbrev course_of : String → CourseStructure ℕ
course_of second = record {
  course = record { id = "https://x/c"; title = []; description = [] };
  objectives = record { id = "https://x/obj/1"; title = []; description = [] } ∷ [];
  nodes =
      Nodes.cons
        (Node.block
          (record {
            id = "https://x/block/1";
            title = [];
            description = [];
            objective_ids = "https://x/obj/1" ∷ [];
          })
          (Nodes.cons (Node.au (unit "https://x/au/1")) Nodes.nil))
        (Nodes.cons (Node.au (unit second)) Nodes.nil);
}

-- A unit whose identifier is a bare token, and two that share one.
bare_token :
    validate_course_structure (course_of "au1") ≡ (ConformanceError.au_id_not_iri "au1" ∷ [])
unfolding validate_course_structure validate_block is_iri is_blank
bare_token = refl

shared :
    validate_course_structure (course_of "https://x/au/1")
    ≡ (ConformanceError.duplicate_au_id "https://x/au/1" ∷ [])
unfolding validate_course_structure validate_block is_iri is_blank
shared = refl

conformant : validate_course_structure (course_of "https://x/au/2") ≡ []
unfolding validate_course_structure validate_block is_iri is_blank
conformant = refl

validate_course_structure-is_conformant_example :
    is_empty (validate_course_structure (course_of "https://x/au/1"))
    ≡ is_conformant (course_of "https://x/au/1")
validate_course_structure-is_conformant_example =
    validate_course_structure-is_conformant (course_of "https://x/au/1")
