-- ===== src/Cmi5/Conformance/Conformant.antt =====
-- cmi5/src/conformance.rs: `validate_course_structure` against the rules themselves.
use cooperative_systems_spac.Prelude.{
  Bool, true, not, ◌&&◌, List, [], ◌∷◌, ◌++◌, map, String, string_eq, all, ==_sym, contains,
  is_empty, ◌≡◌, refl, arith,
}
use cooperative_systems_spac.Cmi5.Manifest.{
  Objective, AssignableUnit, BlockHead, Node, Nodes, CourseStructure, assignable_units,
}
use cooperative_systems_spac.Cmi5.Conformance.{
  ConformanceError, dangling, seen_with, check_id, validate_block, check_aus, check_blocks,
  check_block, validate_course_structure,
}
use cooperative_systems_spac.Cmi5.Conformance.Text.{is_iri, is_blank}

-- Each stands once.
abbrev pub are_distinct : List String → Bool
are_distinct [] = true
are_distinct (x ∷ xs) = not (contains xs x) && are_distinct xs

abbrev are_unseen : List String → List String → Bool
are_unseen seen xs = all (λ x. not (contains seen x)) xs

are_unseen-cons :
    (x : String) (seen xs : List String)
    → are_unseen (x ∷ seen) xs ≡ (not (contains xs x) && are_unseen seen xs)
are_unseen-cons x seen [] = refl
are_unseen-cons x seen (y ∷ ys) = ground (arith, are_unseen-cons x seen ys, ==_sym x y)

abbrev pub are_declared : List String → List String → Bool
are_declared declared references = all (contains declared) references

is_empty-append {ℓ} :
    {A : Type ℓ} (xs ys : List A) → is_empty (xs ++ ys) ≡ (is_empty xs && is_empty ys)
is_empty-append [] ys = refl
is_empty-append (x ∷ xs) ys = refl

dangling-are_declared :
    (declared : List String) (owner : String) (references : List String)
    → is_empty (dangling declared owner references) ≡ are_declared declared references
unfolding dangling
dangling-are_declared declared owner [] = refl
dangling-are_declared declared owner (r ∷ rs) =
    ground (arith, dangling-are_declared declared owner rs)

-- What makes an identified part of a course conform: of the units and of the blocks.
abbrev pub are_ids : List String → Bool
are_ids ids = all is_iri ids && are_distinct ids

-- The next identifier is an IRI that is not seen, and the rest are so beside it: or there is a violation.
are_ids-step :
    (a b : String → ConformanceError) (seen : List String) (id : String) (ids : List String)
    → (is_empty (check_id a b seen id)
        && (all is_iri ids && are_distinct ids && are_unseen (seen_with seen id) ids))
      ≡ ((is_iri id && all is_iri ids)
          && (not (contains ids id) && are_distinct ids)
          && (not (contains seen id) && are_unseen seen ids))
are_ids-step a b seen id ids = ground (arith, are_unseen-cons id seen ids)

module _ {F64 : Type 0} where
  abbrev pub au_conforms : List String → AssignableUnit F64 → Bool
  au_conforms declared au = not (is_blank au.url) && are_declared declared au.objective_ids

  abbrev au_ids : List (AssignableUnit F64) → List String
  au_ids aus = map (λ (au : AssignableUnit F64). au.id) aus

  check_aus-conform :
      (aus : List (AssignableUnit F64)) (declared seen : List String)
      → is_empty (check_aus aus declared seen) ≡ (
          (all is_iri (au_ids aus) && are_distinct (au_ids aus) && are_unseen seen (au_ids aus))
          && all (au_conforms declared) aus)
  unfolding check_aus
  check_aus-conform [] declared seen = refl
  check_aus-conform (au ∷ aus) declared seen =
      rw
        (
          is_empty-append,
          is_empty-append,
          is_empty-append,
          dangling-are_declared,
          check_aus-conform aus declared,
        )
        ground (arith, are_unseen-cons au.id seen (au_ids aus))

  -- The blocks of the tree, each before those inside it.
  unfoldable mutual
    pub block_heads : Nodes F64 → List BlockHead
    block_heads Nodes.nil = []
    block_heads (Nodes.cons node nodes) = node_heads node ++ block_heads nodes

    pub node_heads : Node F64 → List BlockHead
    node_heads (Node.au unit) = []
    node_heads (Node.block head children) = head ∷ block_heads children

-- What the walk over the blocks comes to on their list: the identifiers seen, and whether there is no
-- violation.
abbrev seen_after : List String → List BlockHead → List String
seen_after seen [] = seen
seen_after seen (h ∷ hs) = seen_after (seen_with seen h.id) hs

abbrev pub block_conforms : List String → BlockHead → Bool
block_conforms declared block = are_declared declared block.objective_ids

abbrev no_violation : List String → List String → List BlockHead → Bool
no_violation declared seen [] = true
no_violation declared seen (h ∷ hs) =
    is_empty (validate_block h declared seen).1 && no_violation declared (seen_with seen h.id) hs

seen_after-append :
    (seen : List String) (hs ks : List BlockHead)
    → seen_after seen (hs ++ ks) ≡ seen_after (seen_after seen hs) ks
seen_after-append seen [] ks = refl
seen_after-append seen (h ∷ hs) ks = seen_after-append (seen_with seen h.id) hs ks

no_violation-append :
    (declared seen : List String) (hs ks : List BlockHead)
    → no_violation declared seen (hs ++ ks)
      ≡ (no_violation declared seen hs && no_violation declared (seen_after seen hs) ks)
no_violation-append declared seen [] ks = refl
no_violation-append declared seen (h ∷ hs) ks =
    ground (arith, no_violation-append declared (seen_with seen h.id) hs ks)

abbrev head_ids : List BlockHead → List String
head_ids hs = map (λ (h : BlockHead). h.id) hs

no_violation-conform :
    (hs : List BlockHead) (declared seen : List String)
    → no_violation declared seen hs ≡ (
        (all is_iri (head_ids hs) && are_distinct (head_ids hs) && are_unseen seen (head_ids hs))
        && all (block_conforms declared) hs)
unfolding validate_block
no_violation-conform [] declared seen = refl
no_violation-conform (h ∷ hs) declared seen =
    rw (is_empty-append, dangling-are_declared, no_violation-conform hs declared) ground
      (arith, are_unseen-cons h.id seen (head_ids hs))

are_unseen-none : (xs : List String) → are_unseen [] xs ≡ true
are_unseen-none [] = refl
are_unseen-none (x ∷ xs) = are_unseen-none xs

module _ {F64 : Type 0} where
  mutual
    unfolding check_blocks block_heads validate_block

    check_blocks-walk :
        (nodes : Nodes F64) (declared seen : List String)
        → ((check_blocks nodes declared seen).0 ≡ seen_after seen (block_heads nodes))
          × (is_empty (check_blocks nodes declared seen).1
              ≡ no_violation declared seen (block_heads nodes))
    check_blocks-walk Nodes.nil declared seen = (refl, refl)
    check_blocks-walk (Nodes.cons node nodes) declared seen =
        let first = check_block-walk node declared seen in
        let rest = check_blocks-walk nodes declared (seen_after seen (node_heads node)) in
        (
          rw (first.0, seen_after-append) rest.0,
          rw (is_empty-append, first.1, first.0, no_violation-append, rest.1) refl,
        )

    check_block-walk :
        (node : Node F64) (declared seen : List String)
        → ((check_block node declared seen).0 ≡ seen_after seen (node_heads node))
          × (is_empty (check_block node declared seen).1
              ≡ no_violation declared seen (node_heads node))
    check_block-walk (Node.au unit) declared seen = (refl, refl)
    check_block-walk (Node.block head children) declared seen =
        let inner = check_blocks-walk children declared (seen_with seen head.id) in
        (inner.0, rw (is_empty-append, inner.1) refl)

  -- The rules: the course has an IRI and a unit; the units' identifiers are distinct IRIs, and so are
  -- the blocks'; no unit has a blank url; every reference of a unit or a block is to a declared objective.
  unfoldable pub is_conformant : CourseStructure F64 → Bool
  unfolding assignable_units block_heads is_iri is_blank
  is_conformant cs =
      let declared = map (λ (o : Objective). o.id) cs.objectives in
      let aus = assignable_units cs in
      let blocks = block_heads cs.nodes in
      is_iri cs.course.id
      && not (is_empty aus)
      && are_ids (au_ids aus)
      && all (au_conforms declared) aus
      && are_ids (head_ids blocks)
      && all (block_conforms declared) blocks

  -- No violation is listed exactly where the course keeps the rules: its identifier is an IRI, it has a
  -- unit, the units' identifiers are distinct IRIs, and so are the blocks' at any depth, no unit has a
  -- blank url, and each reference of a unit or a block is to a declared objective.
  pub validate_course_structure-is_conformant :
      (cs : CourseStructure F64) → is_empty (validate_course_structure cs) ≡ is_conformant cs
  unfolding validate_course_structure is_conformant
  validate_course_structure-is_conformant cs =
      let declared = map (λ (o : Objective). o.id) cs.objectives in
      let walk = check_blocks-walk cs.nodes declared [] in
      rw
        (
          is_empty-append, is_empty-append, is_empty-append, check_aus-conform, walk.1,
          no_violation-conform, are_unseen-none, are_unseen-none,
        )
        ground arith
