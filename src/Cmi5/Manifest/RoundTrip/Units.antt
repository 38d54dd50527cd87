-- ===== src/Cmi5/Manifest/RoundTrip/Units.antt =====
-- cmi5/src/manifest.rs: a written AU reads back. `n` is the fuel that is enough for what stands after.
use cooperative_systems_spac.Prelude.{
  ℕ, zero, suc, ◌+◌, ◌≤◌, true, false, Option, none, some, List, [], ◌∷◌, String, string_eq, ◌≡◌,
  refl, length, ok, arith,
}
use cooperative_systems_spac.Cmi5.Manifest.{
  MoveOn, move_on_text, parse_move_on, LaunchMethod, launch_method_text, parse_launch_method,
  LangString, AssignableUnit,
}
use cooperative_systems_spac.Cmi5.Manifest.Events.{Event, Entities, Read}
use cooperative_systems_spac.Cmi5.Manifest.ParseUnits.{
  Floats, Draft, no_draft, parse_score, tag_of, parse_au_parts, parse_au,
}
use cooperative_systems_spac.Cmi5.Manifest.Write.{
  Piece, attribute, optional_attribute, score_text, method_text, au_attributes, write_langstrings,
  write_objective_refs, write_text_element, write_optional_element,
}
use cooperative_systems_spac.Cmi5.Manifest.RoundTrip.Leaves.{
  Delivers, parse_text-write_text, parse_langstrings-write, parse_objective_refs-write,
}

abbrev pub draft :
    List LangString
    → List LangString
    → List String
    → Option String
    → Option String
    → Option String
    → Draft
draft t d o u l e = record {
  title = t;
  description = d;
  objective_ids = o;
  url = u;
  launch_parameters = l;
  entitlement_key = e;
}

module _ (entities : Entities) (pieces : String → List Piece)
    (delivers : Delivers entities pieces) where
  -- Any enough fuel reads the events from the draft to the result.
  abbrev Reads : ℕ → Draft → List Event → Read Draft → Type 0
  Reads n d events r = (fuel : ℕ) → n ≤ fuel → parse_au_parts entities fuel d events ≡ r

  module _ (n : ℕ) (rest : List Event) (r : Read Draft) where
    read_title :
        (t d : List LangString)
        → Reads n (draft t d [] none none none) rest r
        → Reads
            (n + 2 + length t)
            (draft [] d [] none none none)
            (write_langstrings pieces "title" t rest)
            r
    unfolding parse_au_parts write_langstrings
    read_title [] d k fuel h = k fuel (omega (arith, h))
    read_title (s ∷ ss) d k zero h = absurd (omega (arith, h))
    read_title (s ∷ ss) d k (suc fuel) h =
        rw
          (parse_langstrings-write entities pieces delivers fuel "title" [] (s ∷ ss) rest
            (omega (arith, h)))
          (k fuel (omega (arith, h)))

    read_description :
        (t d : List LangString)
        → Reads n (draft t d [] none none none) rest r
        → Reads
            (n + 2 + length d)
            (draft t [] [] none none none)
            (write_langstrings pieces "description" d rest)
            r
    unfolding parse_au_parts write_langstrings
    read_description t [] k fuel h = k fuel (omega (arith, h))
    read_description t (s ∷ ss) k zero h = absurd (omega (arith, h))
    read_description t (s ∷ ss) k (suc fuel) h =
        rw
          (parse_langstrings-write entities pieces delivers fuel "description" [] (s ∷ ss) rest
            (omega (arith, h)))
          (k fuel (omega (arith, h)))

    read_objectives :
        (t d : List LangString) (o : List String)
        → Reads n (draft t d o none none none) rest r
        → Reads (suc n) (draft t d [] none none none) (write_objective_refs o rest) r
    unfolding parse_au_parts write_objective_refs
    read_objectives t d [] k fuel h = k fuel (omega (arith, h))
    read_objectives t d (id ∷ ids) k zero h = absurd (omega (arith, h))
    read_objectives t d (id ∷ ids) k (suc fuel) h =
        rw (parse_objective_refs-write [] (id ∷ ids) rest) (k fuel (omega (arith, h)))

    read_url :
        (t d : List LangString) (o : List String) (u : String)
        → Reads n (draft t d o (some u) none none) rest r
        → Reads (suc n) (draft t d o none none none) (write_text_element pieces "url" u rest) r
    unfolding parse_au_parts write_text_element
    read_url t d o u k zero h = absurd (omega (arith, h))
    read_url t d o u k (suc fuel) h =
        rw (parse_text-write_text entities pieces delivers "url" u rest) (k fuel (omega (arith, h)))

    read_parameters :
        (t d : List LangString) (o : List String) (u l : Option String)
        → Reads n (draft t d o u l none) rest r
        → Reads
            (suc n)
            (draft t d o u none none)
            (write_optional_element pieces "launchParameters" l rest)
            r
    unfolding parse_au_parts write_optional_element write_text_element
    read_parameters t d o u none k fuel h = k fuel (omega (arith, h))
    read_parameters t d o u (some l) k zero h = absurd (omega (arith, h))
    read_parameters t d o u (some l) k (suc fuel) h =
        rw (parse_text-write_text entities pieces delivers "launchParameters" l rest)
          (k fuel (omega (arith, h)))

    read_key :
        (t d : List LangString) (o : List String) (u l e : Option String)
        → Reads n (draft t d o u l e) rest r
        → Reads
            (suc n)
            (draft t d o u l none)
            (write_optional_element pieces "entitlementKey" e rest)
            r
    unfolding parse_au_parts write_optional_element write_text_element
    read_key t d o u l none k fuel h = k fuel (omega (arith, h))
    read_key t d o u l (some e) k zero h = absurd (omega (arith, h))
    read_key t d o u l (some e) k (suc fuel) h =
        rw (parse_text-write_text entities pieces delivers "entitlementKey" e rest)
          (k fuel (omega (arith, h)))

  read_end : (d : Draft) (rest : List Event) → Reads 1 d (Event.end_tag "au" ∷ rest) (ok (d, rest))
  unfolding parse_au_parts
  read_end d rest zero h = absurd (omega (arith, h))
  read_end d rest (suc fuel) h = refl

-- The fuel that a unit uses.
abbrev pub au_fuel : {F64 : Type 0} → AssignableUnit F64 → ℕ
au_fuel u = 9 + (length u.title + length u.description)

parse_move_on-text : (m : MoveOn) → parse_move_on (move_on_text m) ≡ ok m
parse_move_on-text MoveOn.passed = refl
parse_move_on-text MoveOn.completed = refl
parse_move_on-text MoveOn.completed_and_passed = refl
parse_move_on-text MoveOn.completed_or_passed = refl
parse_move_on-text MoveOn.not_applicable = refl

parse_launch_method-text : (m : LaunchMethod) → parse_launch_method (launch_method_text m) ≡ ok m
parse_launch_method-text LaunchMethod.any_window = refl
parse_launch_method-text LaunchMethod.own_window = refl

module _ {F64 : Type 0} (floats : Floats F64) where
  -- What the standard library promises: the text of a fraction is read as the fraction.
  abbrev pub PrintsFractions : Type 0
  PrintsFractions =
      (m : F64) → floats.is_fraction m ≡ true → floats.parse_f64 (floats.to_text m) ≡ some m

  abbrev pub HasFraction : Option F64 → Type 0
  HasFraction none = Unit
  HasFraction (some m) = floats.is_fraction m ≡ true

  -- The score of the unit, where it has one, lies in `0.0..=1.0`.
  abbrev pub IsScored : AssignableUnit F64 → Type 0
  IsScored u = HasFraction u.mastery_score

module _ {F64 : Type 0} (entities : Entities) (floats : Floats F64)
    (prints : PrintsFractions floats) where
  parse_score-text :
      (m : F64) → floats.is_fraction m ≡ true → parse_score floats (floats.to_text m) ≡ ok m
  unfolding parse_score
  parse_score-text m h = rw (prints m h, h, parse_score) refl

  tag_of-attributes :
      (id : String) (m : MoveOn) (score : Option F64) (method : Option LaunchMethod)
      → HasFraction floats score
      → tag_of entities floats (
          attribute "id" id
          ∷ attribute "moveOn" (move_on_text m)
          ∷ optional_attribute "masteryScore"
              (score_text floats score)
              (optional_attribute "launchMethod" (method_text floats method) []))
        ≡ ok (id, m, score, method)
  tag_of-attributes id m none none h = rw (parse_move_on-text m) refl
  tag_of-attributes id m none (some l) h =
      rw (parse_move_on-text m, parse_launch_method-text l) refl
  tag_of-attributes id m (some s) none h = rw (parse_move_on-text m, parse_score-text s h) refl
  tag_of-attributes id m (some s) (some l) h =
      rw (parse_move_on-text m, parse_score-text s h, parse_launch_method-text l) refl

module _ {F64 : Type 0} (entities : Entities) (floats : Floats F64) (pieces : String → List Piece)
    (delivers : Delivers entities pieces) (prints : PrintsFractions floats) where
  read_parts :
      (u : AssignableUnit F64) (rest : List Event)
      → Reads entities pieces delivers
          (au_fuel u)
          no_draft
          (write_langstrings pieces "title" u.title (
            write_langstrings pieces "description" u.description (
              write_objective_refs u.objective_ids (
                write_text_element pieces "url" u.url (
                  write_optional_element pieces "launchParameters" u.launch_parameters (
                    write_optional_element pieces "entitlementKey" u.entitlement_key
                      (Event.end_tag "au" ∷ rest)))))))
          (ok (
            draft u.title u.description u.objective_ids
                (some u.url)
                u.launch_parameters
                u.entitlement_key,
            rest,
          ))
  read_parts u rest fuel h =
      let end = read_end entities pieces delivers _ rest in
      let key = read_key entities pieces delivers 1 _ _ _ _ _ _ _ u.entitlement_key end in
      let parameters =
        read_parameters entities pieces delivers 2 _ _ _ _ _ _ u.launch_parameters key in
      let url = read_url entities pieces delivers 3 _ _ _ _ _ u.url parameters in
      let objectives = read_objectives entities pieces delivers 4 _ _ _ _ u.objective_ids url in
      let description =
        read_description entities pieces delivers 5 _ _ _ u.description objectives in
      read_title entities pieces delivers (7 + length u.description) _ _ u.title _ description fuel
        (omega (arith, h))

  pub parse_au-write :
      (u : AssignableUnit F64) (rest : List Event) (fuel : ℕ)
      → IsScored floats u
      → au_fuel u ≤ fuel
      → parse_au entities floats fuel (au_attributes floats u) false (
          write_langstrings pieces "title" u.title (
            write_langstrings pieces "description" u.description (
              write_objective_refs u.objective_ids (
                write_text_element pieces "url" u.url (
                  write_optional_element pieces "launchParameters" u.launch_parameters (
                    write_optional_element pieces "entitlementKey" u.entitlement_key
                      (Event.end_tag "au" ∷ rest)))))))
        ≡ ok (u, rest)
  unfolding parse_au
  parse_au-write u rest fuel scored h =
      rw
        (
          tag_of-attributes entities floats prints u.id u.move_on u.mastery_score u.launch_method
              scored,
          read_parts u rest fuel h,
        )
        refl
