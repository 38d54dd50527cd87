-- ===== src/Cmi5/Manifest/Examples.antt =====
-- A course of a nested block and two units, with scores in percent; a text comes in one piece.
use Prim.Native.String.append
use Prim.Native.String.{◌∷◌, []}
use cooperative_systems_spac.Prelude.{
  ℕ, true, List, [], ◌∷◌, String, ◌==◌, ==_iff, string_eq, nat_eq, Bool-cases, inl, inr, ◌||◌, none,
  some, ok, err, ◌≡◌, refl, ap, arith, if◌then◌else◌,
}
use cooperative_systems_spac.Cmi5.Manifest.{
  ManifestError, MoveOn, LaunchMethod, AssignableUnit, Node, Nodes, CourseStructure,
}
use cooperative_systems_spac.Cmi5.Manifest.Events.{Event, Entities}
use cooperative_systems_spac.Cmi5.Manifest.ParseUnits.{Floats, parse_au}
use cooperative_systems_spac.Cmi5.Manifest.ParseBlocks.{parse_manifest}
use cooperative_systems_spac.Cmi5.Manifest.Write.{
  Piece, to_manifest_xml, write_course, write_objectives, write_node, write_nodes, write_au,
  write_langstrings, write_objective_refs, write_text_element, write_optional_element,
}
use cooperative_systems_spac.Cmi5.Manifest.Delivery.{
  is_break, KeepsPlain, have_plain_attributes, deliver,
}
use cooperative_systems_spac.Cmi5.Manifest.RoundTrip.Leaves.{Delivers}
use cooperative_systems_spac.Cmi5.Manifest.RoundTrip.Units.{PrintsFractions}
use cooperative_systems_spac.Cmi5.Manifest.RoundTrip.Blocks.{AreScored, nodes_fuel}
use cooperative_systems_spac.Cmi5.Manifest.RoundTrip.Document.{
  manifest_fuel, parse_manifest-to_manifest_xml,
}

abbrev predefined : Entities
predefined = record {
  resolve_char_ref = λ name. ok none;
  resolve_predefined_entity = λ name. if name == "amp" then some "&" else none;
}

abbrev one_piece : String → List Piece
one_piece s = Piece.literal s ∷ []

one_piece-Delivers : Delivers predefined one_piece
one_piece-Delivers s = ap some (append.nil s)

-- Two scores have a text.
abbrev percents : Floats ℕ
percents = record {
  to_text = λ m. if m == 80 then "0.8" else "1";
  parse_f64 = λ s. if s == "0.8" then some 80 else if s == "1" then some 100 else none;
  is_fraction = λ m. m == 80 || m == 100;
}

percents-PrintsFractions : PrintsFractions percents
percents-PrintsFractions m h = elim (Bool-cases (m == 80)) [
  | inl e ↦ let p = (==_iff m 80).0 e in rw p refl
  | inr n ↦ let p = (==_iff m 100).0 (ground (arith, n, h)) in rw p refl
]

abbrev laser : AssignableUnit ℕ
laser = record {
  id = "http://example.com/au/laser";
  move_on = MoveOn.completed_and_passed;
  mastery_score = some 80;
  launch_method = some LaunchMethod.own_window;
  title = record { lang = "en"; value = "Laser" } ∷ [];
  description = [];
  objective_ids = "safety" ∷ [];
  url = "content/index.html";
  launch_parameters = some "mode=strict";
  entitlement_key = none;
}

abbrev workshop : CourseStructure ℕ
workshop = record {
  course = record { id = "http://example.com/course"; title = []; description = [] };
  objectives = record { id = "safety"; title = []; description = [] } ∷ [];
  nodes =
      Nodes.cons
        (Node.block
          (record {
            id = "http://example.com/block";
            title = [];
            description = [];
            objective_ids = [];
          })
          (Nodes.cons (Node.au laser) Nodes.nil))
        (Nodes.cons (Node.au laser) Nodes.nil);
}

-- A tab or a line break is read as a space.
abbrev spaced : String → String
spaced [] = []
spaced (c ∷ s) = let rest = spaced s in if is_break c then " " ∷ rest else c ∷ rest

spaced-KeepsPlain : KeepsPlain spaced
spaced-KeepsPlain [] h = refl
spaced-KeepsPlain (c ∷ s) h = let rest = spaced-KeepsPlain s in ground (arith, h, rest)

parse_manifest-to_manifest_xml_example :
    parse_manifest predefined percents 100
      (deliver spaced (to_manifest_xml percents one_piece workshop))
    ≡ ok workshop
unfolding AreScored manifest_fuel nodes_fuel have_plain_attributes to_manifest_xml write_course
    write_objectives write_node write_nodes write_au write_langstrings write_objective_refs
    write_text_element write_optional_element
parse_manifest-to_manifest_xml_example =
    parse_manifest-to_manifest_xml predefined percents one_piece one_piece-Delivers
      percents-PrintsFractions spaced workshop 100 spaced-KeepsPlain refl ((refl, tt), (refl, tt))
      (omega arith)

-- An identifier with a tab comes back with a space.
tabbed :
    deliver spaced (Event.start "course" (ok ("id", "a\tb") ∷ []) ∷ [])
    ≡ Event.start "course" (ok ("id", "a b") ∷ []) ∷ []
unfolding deliver
tabbed = refl

-- A course whose only unit has no `url` is refused.
parse_au_empty :
    parse_au predefined percents 10 (ok ("id", "a") ∷ []) true []
    ≡ err (ManifestError.missing_element "url")
unfolding parse_au
parse_au_empty = refl
