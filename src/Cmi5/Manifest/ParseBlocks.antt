-- ===== src/Cmi5/Manifest/ParseBlocks.antt =====
-- cmi5/src/manifest.rs: reading a block with what it holds, and the whole document.
use cooperative_systems_spac.Prelude.{
  ℕ, zero, suc, Bool, true, false, Option, none, some, List, [], ◌∷◌, String, ◌==◌, string_eq,
  Result, ok, err, ◌>>=◌, ok_or,
}
use cooperative_systems_spac.Cmi5.Manifest.{
  ManifestError, Course, Objective, BlockHead, Node, Nodes, CourseStructure,
}
use cooperative_systems_spac.Cmi5.Manifest.Events.{Event, Attributes, Read, Entities, skip_to_end}
use cooperative_systems_spac.Cmi5.Manifest.Parse.{
  no_fuel, id_of, parse_langstrings, parse_objective_refs, parse_course, parse_objectives,
}
use cooperative_systems_spac.Cmi5.Manifest.ParseUnits.{Floats, parse_au}

abbrev pub push_node : {F64 : Type 0} → Nodes F64 → Node F64 → Nodes F64
push_node Nodes.nil node = Nodes.cons node Nodes.nil
push_node (Nodes.cons first nodes) node = Nodes.cons first (push_node nodes node)

abbrev pub empty_block : String → BlockHead
empty_block id = record { id = id; title = []; description = []; objective_ids = [] }

-- The tag of a block, and its loop where it is not empty.
abbrev pub enter_block :
    {F64 : Type 0}
    → (BlockHead → Nodes F64 → List Event → Read (Node F64))
    → Attributes
    → Bool
    → List Event
    → Read (Node F64)
enter_block loop attributes empty events = id_of "block" attributes >>= λ id. elim empty [
  | true ↦ ok (Node.block (empty_block id) Nodes.nil, events)
  | false ↦ loop (empty_block id) Nodes.nil events
]

module _ {F64 : Type 0} (entities : Entities) (floats : Floats F64) where
  unfoldable pub parse_block_parts : ℕ → BlockHead → Nodes F64 → List Event → Read (Node F64)
  unfolding parse_langstrings parse_objective_refs
  parse_block_parts zero b children events = err no_fuel
  parse_block_parts (suc fuel) b children [] = err (ManifestError.unexpected_eof "block")
  parse_block_parts (suc fuel) b children (Event.start name attributes ∷ events) =
      elim (name == "title") [
        | true ↦ parse_langstrings entities fuel "title" [] events >>= λ (v, rest).
            parse_block_parts fuel (record b { title = v }) children rest
        | false ↦ elim (name == "description") [
          | true ↦ parse_langstrings entities fuel "description" [] events >>= λ (v, rest).
              parse_block_parts fuel (record b { description = v }) children rest
          | false ↦ elim (name == "objectives") [
            | true ↦ parse_objective_refs [] events >>= λ (v, rest).
                parse_block_parts fuel (record b { objective_ids = v }) children rest
            | false ↦ elim (name == "block") [
              | true ↦
                  enter_block (parse_block_parts fuel) attributes false events >>= λ (node, rest).
                  parse_block_parts fuel b (push_node children node) rest
              | false ↦ elim (name == "au") [
                | true ↦ parse_au entities floats fuel attributes false events >>= λ (unit, rest).
                    parse_block_parts fuel b (push_node children (Node.au unit)) rest
                | false ↦
                    skip_to_end name 0 events >>= λ rest. parse_block_parts fuel b children rest
              ]
            ]
          ]
        ]
      ]
  parse_block_parts (suc fuel) b children (Event.empty name attributes ∷ events) =
      elim (name == "block") [
        | true ↦ enter_block (parse_block_parts fuel) attributes true events >>= λ (node, rest).
            parse_block_parts fuel b (push_node children node) rest
        | false ↦ elim (name == "au") [
          | true ↦ parse_au entities floats fuel attributes true events >>= λ (unit, rest).
              parse_block_parts fuel b (push_node children (Node.au unit)) rest
          | false ↦ parse_block_parts fuel b children events
        ]
      ]
  parse_block_parts (suc fuel) b children (Event.end_tag name ∷ events) = elim (name == "block") [
    | true ↦ ok (Node.block b children, events)
    | false ↦ parse_block_parts fuel b children events
  ]
  parse_block_parts (suc fuel) b children (Event.fault e ∷ events) = err e
  parse_block_parts (suc fuel) b children (_ ∷ events) = parse_block_parts fuel b children events

  unfoldable pub parse_block : ℕ → Attributes → Bool → List Event → Read (Node F64)
  unfolding parse_block_parts
  parse_block fuel attributes empty events =
      enter_block (parse_block_parts fuel) attributes empty events

  -- The loop of `parse_course_structure`, with its three variables.
  unfoldable pub parse_course_structure :
      ℕ
      → Option Course
      → List Objective
      → Nodes F64
      → List Event
      → Result ManifestError (CourseStructure F64)
  unfolding parse_course parse_objectives parse_block parse_au
  parse_course_structure zero course objectives nodes events = err no_fuel
  parse_course_structure (suc fuel) course objectives nodes [] =
      err (ManifestError.unexpected_eof "courseStructure")
  parse_course_structure (suc fuel) course objectives nodes (Event.start name attributes ∷ events) =
      elim (name == "course") [
        | true ↦ parse_course entities fuel attributes false events >>= λ (c, rest).
            parse_course_structure fuel (some c) objectives nodes rest
        | false ↦ elim (name == "objectives") [
          | true ↦ parse_objectives entities fuel [] events >>= λ (os, rest).
              parse_course_structure fuel course os nodes rest
          | false ↦ elim (name == "block") [
            | true ↦ parse_block fuel attributes false events >>= λ (node, rest).
                parse_course_structure fuel course objectives (push_node nodes node) rest
            | false ↦ elim (name == "au") [
              | true ↦ parse_au entities floats fuel attributes false events >>= λ (unit, rest).
                  parse_course_structure fuel course objectives (push_node nodes (Node.au unit))
                    rest
              | false ↦ skip_to_end name 0 events >>= λ rest.
                  parse_course_structure fuel course objectives nodes rest
            ]
          ]
        ]
      ]
  parse_course_structure (suc fuel) course objectives nodes (Event.empty name attributes ∷ events) =
      elim (name == "course") [
        | true ↦ parse_course entities fuel attributes true events >>= λ (c, rest).
            parse_course_structure fuel (some c) objectives nodes rest
        | false ↦ elim (name == "block") [
          | true ↦ parse_block fuel attributes true events >>= λ (node, rest).
              parse_course_structure fuel course objectives (push_node nodes node) rest
          | false ↦ elim (name == "au") [
            | true ↦ parse_au entities floats fuel attributes true events >>= λ (unit, rest).
                parse_course_structure fuel course objectives (push_node nodes (Node.au unit)) rest
            | false ↦ parse_course_structure fuel course objectives nodes events
          ]
        ]
      ]
  parse_course_structure (suc fuel) course objectives nodes (Event.end_tag name ∷ events) =
      elim (name == "courseStructure") [
        | true ↦ ok_or course (ManifestError.missing_element "course") >>= λ c.
            ok (record { course = c; objectives = objectives; nodes = nodes })
        | false ↦ parse_course_structure fuel course objectives nodes events
      ]
  parse_course_structure (suc fuel) course objectives nodes (Event.fault e ∷ events) = err e
  parse_course_structure (suc fuel) course objectives nodes (_ ∷ events) =
      parse_course_structure fuel course objectives nodes events

  unfoldable pub parse_manifest : ℕ → List Event → Result ManifestError (CourseStructure F64)
  unfolding parse_course_structure
  parse_manifest fuel [] = err (ManifestError.missing_element "courseStructure")
  parse_manifest fuel (Event.start name attributes ∷ events) = elim (name == "courseStructure") [
    | true ↦ parse_course_structure fuel none [] Nodes.nil events
    | false ↦ parse_manifest fuel events
  ]
  parse_manifest fuel (Event.fault e ∷ events) = err e
  parse_manifest fuel (_ ∷ events) = parse_manifest fuel events
