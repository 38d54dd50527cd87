-- ===== src/Cmi5/Manifest/RoundTrip/Labels.antt =====
-- cmi5/src/manifest.rs: a written course's labels and objectives read back. `n` is the fuel that is enough
-- for what stands after.
use cooperative_systems_spac.Prelude.{
  ℕ, zero, suc, ◌+◌, ◌≤◌, false, List, [], ◌∷◌, ◌++◌, String, string_eq, ==_refl, ◌≡◌, refl, length,
  ok, arith,
}
use mathlib.Core.List.{append-nil, append_assoc}
use cooperative_systems_spac.Cmi5.Manifest.{LangString, Course, Objective}
use cooperative_systems_spac.Cmi5.Manifest.Events.{Event, Entities, Read}
use cooperative_systems_spac.Cmi5.Manifest.Parse.{
  Labels, no_labels, parse_labels, parse_course, parse_objectives,
}
use cooperative_systems_spac.Cmi5.Manifest.Write.{
  Piece, attribute, write_langstrings, write_each_objective,
}
use cooperative_systems_spac.Cmi5.Manifest.RoundTrip.Leaves.{Delivers, parse_langstrings-write}

abbrev pub labels : List LangString → List LangString → Labels
labels title description = record { title = title; description = description }

-- The fuel that the labels of a tag use.
abbrev pub labels_fuel : List LangString → List LangString → ℕ
labels_fuel title description = 4 + (length title + length description)

-- The fuel that the declared objectives use.
abbrev pub objectives_fuel : List Objective → ℕ
objectives_fuel [] = 0
objectives_fuel (o ∷ os) = suc (labels_fuel o.title o.description) + objectives_fuel os

module _ (entities : Entities) (pieces : String → List Piece)
    (delivers : Delivers entities pieces) where
  read_title :
      (n : ℕ) (tag : String) (t d : List LangString) (rest : List Event) (r : Read Labels)
      → ((fuel : ℕ) → n ≤ fuel → parse_labels entities fuel tag (labels t d) rest ≡ r)
      → (fuel : ℕ) → n + 2 + length t ≤ fuel
      → parse_labels entities fuel tag (labels [] d) (write_langstrings pieces "title" t rest) ≡ r
  unfolding parse_labels write_langstrings
  read_title n tag [] d rest r k fuel h = k fuel (omega (arith, h))
  read_title n tag (s ∷ ss) d rest r k zero h = absurd (omega (arith, h))
  read_title n tag (s ∷ ss) d rest r k (suc fuel) h =
      rw
        (parse_langstrings-write entities pieces delivers fuel "title" [] (s ∷ ss) rest
          (omega (arith, h)))
        (k fuel (omega (arith, h)))

  read_description :
      (n : ℕ) (tag : String) (t d : List LangString) (rest : List Event) (r : Read Labels)
      → ((fuel : ℕ) → n ≤ fuel → parse_labels entities fuel tag (labels t d) rest ≡ r)
      → (fuel : ℕ) → n + 2 + length d ≤ fuel
      → parse_labels entities fuel tag (labels t []) (write_langstrings pieces "description" d rest)
        ≡ r
  unfolding parse_labels write_langstrings
  read_description n tag t [] rest r k fuel h = k fuel (omega (arith, h))
  read_description n tag t (s ∷ ss) rest r k zero h = absurd (omega (arith, h))
  read_description n tag t (s ∷ ss) rest r k (suc fuel) h =
      rw
        (parse_langstrings-write entities pieces delivers fuel "description" [] (s ∷ ss) rest
          (omega (arith, h)))
        (k fuel (omega (arith, h)))

  read_end :
      (tag : String) (l : Labels) (rest : List Event) (fuel : ℕ)
      → 1 ≤ fuel
      → parse_labels entities fuel tag l (Event.end_tag tag ∷ rest) ≡ ok (l, rest)
  unfolding parse_labels
  read_end tag l rest zero h = absurd (omega (arith, h))
  read_end tag l rest (suc fuel) h = rw (==_refl tag, parse_labels) refl

  parse_labels-write :
      (tag : String) (t d : List LangString) (rest : List Event) (fuel : ℕ)
      → suc (labels_fuel t d) ≤ fuel
      → parse_labels entities fuel tag no_labels (
          write_langstrings pieces "title" t
            (write_langstrings pieces "description" d (Event.end_tag tag ∷ rest)))
        ≡ ok (labels t d, rest)
  parse_labels-write tag t d rest fuel h =
      read_title (1 + 2 + length d) tag t [] _ _
        (λ f g. read_description 1 tag t d _ _ (λ f' g'. read_end tag (labels t d) rest f' g') f g)
        fuel (omega (arith, h))

  pub parse_course-write :
      (c : Course) (rest : List Event) (fuel : ℕ)
      → suc (labels_fuel c.title c.description) ≤ fuel
      → parse_course entities fuel (attribute "id" c.id ∷ []) false (
          write_langstrings pieces "title" c.title
            (write_langstrings pieces "description" c.description (Event.end_tag "course" ∷ rest)))
        ≡ ok (c, rest)
  unfolding parse_course
  parse_course-write c rest fuel h =
      rw (parse_labels-write "course" c.title c.description rest fuel h) refl

  pub parse_objectives-write :
      (out os : List Objective) (rest : List Event) (fuel : ℕ)
      → suc (objectives_fuel os) ≤ fuel
      → parse_objectives entities fuel out
          (write_each_objective pieces os (Event.end_tag "objectives" ∷ rest))
        ≡ ok (out ++ os, rest)
  unfolding parse_objectives write_each_objective
  parse_objectives-write out os rest zero h = absurd (omega (arith, h))
  parse_objectives-write out [] rest (suc fuel) h = rw (append-nil, parse_objectives) refl
  parse_objectives-write out (o ∷ os) rest (suc fuel) h =
      rw
        (
          parse_labels-write "objective" o.title o.description
              (write_each_objective pieces os (Event.end_tag "objectives" ∷ rest)) fuel
              (omega (arith, h)),
          parse_objectives-write (out ++ (o ∷ [])) os rest fuel (omega (arith, h)),
          append_assoc,
          parse_objectives,
        )
        refl
