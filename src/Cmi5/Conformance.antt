-- ===== src/Cmi5/Conformance.antt =====
-- cmi5/src/conformance.rs: the rules that a course keeps beyond those of its parsing, and the violations
-- that a check lists. The sets of the identifiers seen are lists; the borrowed set and the list of the
-- violations of `check_blocks` are what it returns.
mod Text
mod Conformant
mod Examples
use Prim.Native.String.{String}
use cooperative_systems_spac.Prelude.{
  Bool, true, false, not, ◌&&◌, ◌||◌, List, [], ◌∷◌, ◌++◌, map, ◌==◌, string_eq, any, filter,
  contains, is_empty, if◌then◌else◌,
}
use cooperative_systems_spac.Cmi5.Manifest.{
  Objective, AssignableUnit, BlockHead, Node, Nodes, CourseStructure, assignable_units,
}
use cooperative_systems_spac.Cmi5.Conformance.Text.{is_iri, is_blank}

pub data ConformanceError : Type 0 where
  course_id_not_iri : String → ConformanceError
  no_assignable_units : ConformanceError
  au_id_not_iri : String → ConformanceError
  block_id_not_iri : String → ConformanceError
  duplicate_au_id : String → ConformanceError
  duplicate_block_id : String → ConformanceError
  empty_au_url : String → ConformanceError
  dangling_objective_ref : String → String → ConformanceError

-- What a test that fails adds to the violations.
abbrev pub unless : Bool → ConformanceError → List ConformanceError
unless true e = []
unless false e = e ∷ []

-- The references of an owner that are to no declared objective.
unfoldable pub dangling : List String → String → List String → List ConformanceError
dangling declared owner [] = []
dangling declared owner (reference ∷ rest) =
    unless (contains declared reference) (ConformanceError.dangling_objective_ref owner reference)
    ++ dangling declared owner rest

-- What is seen after an identifier: one that is no IRI is not added.
abbrev pub seen_with : List String → String → List String
seen_with seen id = if is_iri id && not (contains seen id) then id ∷ seen else seen

-- The violations of an identifier.
abbrev pub check_id :
    (String → ConformanceError)
    → (String → ConformanceError)
    → List String
    → String
    → List ConformanceError
check_id not_iri duplicate seen id =
    if is_iri id then if contains seen id then duplicate id ∷ [] else [] else not_iri id ∷ []

unfoldable pub validate_block :
    BlockHead → List String → List String → List String × List ConformanceError
unfolding dangling
validate_block block declared seen = (
  seen_with seen block.id,
  check_id ConformanceError.block_id_not_iri ConformanceError.duplicate_block_id seen block.id
      ++ dangling declared block.id block.objective_ids,
)

module _ {F64 : Type 0} where
  -- The loop over the units.
  unfoldable pub check_aus :
      List (AssignableUnit F64) → List String → List String → List ConformanceError
  unfolding dangling
  check_aus [] declared seen = []
  check_aus (au ∷ aus) declared seen =
      check_id ConformanceError.au_id_not_iri ConformanceError.duplicate_au_id seen au.id
      ++ unless (not (is_blank au.url)) (ConformanceError.empty_au_url au.id)
      ++ dangling declared au.id au.objective_ids
      ++ check_aus aus declared (seen_with seen au.id)

  unfoldable mutual
    pub check_blocks : Nodes F64 → List String → List String → List String × List ConformanceError
    check_blocks Nodes.nil declared seen = (seen, [])
    check_blocks (Nodes.cons node nodes) declared seen =
        let first = check_block node declared seen in
        let rest = check_blocks nodes declared first.0 in (rest.0, first.1 ++ rest.1)

    pub check_block : Node F64 → List String → List String → List String × List ConformanceError
    check_block (Node.au au) declared seen = (seen, [])
    check_block (Node.block block children) declared seen =
        let first = validate_block block declared seen in
        let inner = check_blocks children declared first.0 in (inner.0, first.1 ++ inner.1)

  unfoldable pub validate_course_structure : CourseStructure F64 → List ConformanceError
  unfolding assignable_units check_aus check_blocks
  validate_course_structure cs =
      let declared = map (λ (o : Objective). o.id) cs.objectives in
      let aus = assignable_units cs in
      unless (is_iri cs.course.id) (ConformanceError.course_id_not_iri cs.course.id)
      ++ unless (not (is_empty aus)) ConformanceError.no_assignable_units
      ++ check_aus aus declared []
      ++ (check_blocks cs.nodes declared []).1
