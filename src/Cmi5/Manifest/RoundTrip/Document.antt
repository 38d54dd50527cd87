-- ===== src/Cmi5/Manifest/RoundTrip/Document.antt =====
-- cmi5/src/manifest.rs: a written document reads back as the course.
use cooperative_systems_spac.Prelude.{
  ℕ, true, zero, suc, ◌+◌, ◌≤◌, Option, none, some, List, [], ◌∷◌, String, string_eq, ◌≡◌, refl,
  Result, ok, arith,
}
use cooperative_systems_spac.Cmi5.Manifest.{
  ManifestError, Course, Objective, Node, Nodes, CourseStructure,
}
use cooperative_systems_spac.Cmi5.Manifest.Events.{Event, Entities}
use cooperative_systems_spac.Cmi5.Manifest.ParseUnits.{Floats}
use cooperative_systems_spac.Cmi5.Manifest.ParseBlocks.{
  push_node, parse_block, parse_course_structure, parse_manifest,
}
use cooperative_systems_spac.Cmi5.Manifest.Write.{
  Piece, write_course, write_objectives, write_node, write_nodes, to_manifest_xml,
}
use cooperative_systems_spac.Cmi5.Manifest.Delivery.{
  KeepsPlain, have_plain_attributes, deliver, deliver-plain,
}
use cooperative_systems_spac.Cmi5.Manifest.RoundTrip.Leaves.{Delivers}
use cooperative_systems_spac.Cmi5.Manifest.RoundTrip.Labels.{
  labels_fuel, objectives_fuel, parse_course-write, parse_objectives-write,
}
use cooperative_systems_spac.Cmi5.Manifest.RoundTrip.Units.{PrintsFractions, parse_au-write}
use cooperative_systems_spac.Cmi5.Manifest.RoundTrip.Blocks.{
  append_nodes, append_nodes-push_node, append_nodes-nil, node_fuel, nodes_fuel, IsScoredNode,
  AreScored, read_block, read_nodes, read_end,
}

-- The fuel that is enough to read a written course: a bound by its labels, objectives and nodes.
unfoldable pub manifest_fuel : {F64 : Type 0} → CourseStructure F64 → ℕ
unfolding nodes_fuel
manifest_fuel cs =
    5
    + (labels_fuel cs.course.title cs.course.description
        + objectives_fuel cs.objectives
        + nodes_fuel cs.nodes)

module _ {F64 : Type 0} (entities : Entities) (floats : Floats F64) (pieces : String → List Piece)
    (delivers : Delivers entities pieces) (prints : PrintsFractions floats) where
  abbrev Reads :
      ℕ
      → Option Course
      → List Objective
      → Nodes F64
      → List Event
      → Result ManifestError (CourseStructure F64)
      → Type 0
  Reads n course objectives nodes events r =
      (fuel : ℕ)
      → n ≤ fuel
      → parse_course_structure entities floats fuel course objectives nodes events ≡ r

  -- A node at the top.
  read_top :
      (n : ℕ) (node : Node F64) (c : Option Course) (os : List Objective) (acc : Nodes F64)
      (rest : List Event) (r : Result ManifestError (CourseStructure F64))
      → IsScoredNode floats node
      → Reads n c os (push_node acc node) rest r
      → Reads (suc (node_fuel node) + n) c os acc (write_node floats pieces node rest) r
  unfolding parse_course_structure parse_block write_node IsScoredNode node_fuel
  read_top n node c os acc rest r scored k zero h = absurd (omega (arith, h))
  read_top n (Node.au u) c os acc rest r scored k (suc fuel) h =
      rw
        (parse_au-write entities floats pieces delivers prints u rest fuel scored
          (omega (arith, h)))
        (k fuel (omega (arith, h)))
  read_top n (Node.block b children) c os acc rest r scored k (suc fuel) h =
      rw
        (read_block entities floats pieces delivers prints b children rest
          (read_nodes entities floats pieces delivers prints 1 children b Nodes.nil _ _ scored
            (read_end entities floats pieces delivers b children rest))
          fuel (omega (arith, h)))
        (k fuel (omega (arith, h)))

  read_tops :
      (n : ℕ) (nodes : Nodes F64) (c : Option Course) (os : List Objective) (acc : Nodes F64)
      (rest : List Event) (r : Result ManifestError (CourseStructure F64))
      → AreScored floats nodes
      → Reads n c os (append_nodes acc nodes) rest r
      → Reads (n + nodes_fuel nodes) c os acc (write_nodes floats pieces nodes rest) r
  unfolding write_nodes AreScored nodes_fuel
  read_tops n Nodes.nil c os acc rest r scored k fuel h =
      let e = append_nodes-nil acc in let k' = rw e at k in k' fuel (omega (arith, h))
  read_tops n (Nodes.cons node nodes) c os acc rest r (scored, more) k fuel h =
      let e = append_nodes-push_node acc node nodes in
      read_top (n + nodes_fuel nodes) node c os acc (write_nodes floats pieces nodes rest) r scored
        (read_tops n nodes c os (push_node acc node) rest r more (λ f g. rw e (k f g))) fuel
        (omega (arith, h))

  read_objectives :
      (n : ℕ) (os : List Objective) (c : Option Course) (rest : List Event)
      (r : Result ManifestError (CourseStructure F64))
      → Reads n c os Nodes.nil rest r
      → Reads (2 + objectives_fuel os + n) c [] Nodes.nil (write_objectives pieces os rest) r
  unfolding parse_course_structure write_objectives
  read_objectives n [] c rest r k fuel h = k fuel (omega (arith, h))
  read_objectives n (o ∷ os) c rest r k zero h = absurd (omega (arith, h))
  read_objectives n (o ∷ os) c rest r k (suc fuel) h =
      rw (parse_objectives-write entities pieces delivers [] (o ∷ os) rest fuel (omega (arith, h)))
        (k fuel (omega (arith, h)))

  read_course :
      (n : ℕ) (c : Course) (rest : List Event) (r : Result ManifestError (CourseStructure F64))
      → Reads n (some c) [] Nodes.nil rest r
      → Reads
          (2 + labels_fuel c.title c.description + n)
          none
          []
          Nodes.nil
          (write_course pieces c rest)
          r
  unfolding parse_course_structure write_course
  read_course n c rest r k zero h = absurd (omega (arith, h))
  read_course n c rest r k (suc fuel) h =
      rw (parse_course-write entities pieces delivers c rest fuel (omega (arith, h)))
        (k fuel (omega (arith, h)))

  read_close :
      (c : Course) (os : List Objective) (nodes : Nodes F64)
      → Reads 1
          (some c)
          os
          nodes
          (Event.end_tag "courseStructure" ∷ [])
          (ok (record { course = c; objectives = os; nodes = nodes }))
  unfolding parse_course_structure
  read_close c os nodes zero h = absurd (omega (arith, h))
  read_close c os nodes (suc fuel) h = refl

  -- A course that is written reads back from its own events.
  parse_manifest-written :
      (cs : CourseStructure F64) (fuel : ℕ)
      → AreScored floats cs.nodes
      → manifest_fuel cs ≤ fuel
      → parse_manifest entities floats fuel (to_manifest_xml floats pieces cs) ≡ ok cs
  unfolding parse_manifest to_manifest_xml manifest_fuel
  parse_manifest-written cs fuel scored h =
      let close = read_close cs.course cs.objectives cs.nodes in
      let tops = read_tops 1 cs.nodes (some cs.course) cs.objectives Nodes.nil _ _ scored close in
      let objectives = read_objectives (1 + nodes_fuel cs.nodes) cs.objectives _ _ _ tops in
      read_course (2 + objectives_fuel cs.objectives + (1 + nodes_fuel cs.nodes)) cs.course _ _
        objectives fuel (omega (arith, h))

  -- A course that is written and read again is the course, where each mastery score lies in
  -- `0.0..=1.0` and no attribute that is written for it has a tab or a line break: with whatever
  -- labels, objectives and references, blocks at whatever depth, and units with any criterion, launch
  -- method and optional parts; and `manifest_fuel` is enough.
  pub parse_manifest-to_manifest_xml :
      (normalized : String → String) (cs : CourseStructure F64) (fuel : ℕ)
      → KeepsPlain normalized
      → have_plain_attributes (to_manifest_xml floats pieces cs) ≡ true
      → AreScored floats cs.nodes
      → manifest_fuel cs ≤ fuel
      → parse_manifest entities floats fuel (deliver normalized (to_manifest_xml floats pieces cs))
        ≡ ok cs
  parse_manifest-to_manifest_xml normalized cs fuel keeps plain scored h =
      rw (deliver-plain normalized keeps (to_manifest_xml floats pieces cs) plain)
        (parse_manifest-written cs fuel scored h)
