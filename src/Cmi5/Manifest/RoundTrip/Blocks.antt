-- ===== src/Cmi5/Manifest/RoundTrip/Blocks.antt =====
-- cmi5/src/manifest.rs: a written block reads back, with everything in it. `n` is the fuel that is enough
-- for what stands after.
use cooperative_systems_spac.Prelude.{
  ℕ, zero, suc, ◌+◌, ◌≤◌, List, [], ◌∷◌, String, string_eq, ◌≡◌, refl, ap, length, ok, arith,
}
use cooperative_systems_spac.Cmi5.Manifest.{LangString, AssignableUnit, BlockHead, Node, Nodes}
use cooperative_systems_spac.Cmi5.Manifest.Events.{Event, Entities, Read}
use cooperative_systems_spac.Cmi5.Manifest.ParseUnits.{Floats}
use cooperative_systems_spac.Cmi5.Manifest.ParseBlocks.{push_node, empty_block, parse_block_parts}
use cooperative_systems_spac.Cmi5.Manifest.Write.{
  Piece, write_langstrings, write_objective_refs, write_au, write_node, write_nodes,
}
use cooperative_systems_spac.Cmi5.Manifest.RoundTrip.Leaves.{
  Delivers, parse_langstrings-write, parse_objective_refs-write,
}
use cooperative_systems_spac.Cmi5.Manifest.RoundTrip.Units.{
  au_fuel, PrintsFractions, IsScored, parse_au-write,
}

module _ {F64 : Type 0} where
  abbrev pub append_nodes : Nodes F64 → Nodes F64 → Nodes F64
  append_nodes Nodes.nil more = more
  append_nodes (Nodes.cons node nodes) more = Nodes.cons node (append_nodes nodes more)

  pub append_nodes-push_node :
      (acc : Nodes F64) (node : Node F64) (more : Nodes F64)
      → append_nodes (push_node acc node) more ≡ append_nodes acc (Nodes.cons node more)
  append_nodes-push_node Nodes.nil node more = refl
  append_nodes-push_node (Nodes.cons first nodes) node more =
      ap (Nodes.cons first) (append_nodes-push_node nodes node more)

  pub append_nodes-nil : (acc : Nodes F64) → append_nodes acc Nodes.nil ≡ acc
  append_nodes-nil Nodes.nil = refl
  append_nodes-nil (Nodes.cons first nodes) = ap (Nodes.cons first) (append_nodes-nil nodes)

  -- The fuel that a node, and a list of nodes, uses.
  unfoldable mutual
    pub node_fuel : Node F64 → ℕ
    node_fuel (Node.au u) = au_fuel u
    node_fuel (Node.block b children) =
        7 + (length b.title + length b.description) + nodes_fuel children

    pub nodes_fuel : Nodes F64 → ℕ
    nodes_fuel Nodes.nil = 0
    nodes_fuel (Nodes.cons node nodes) = suc (node_fuel node) + nodes_fuel nodes

-- Every score in the tree lies in `0.0..=1.0`.
module _ {F64 : Type 0} (floats : Floats F64) where
  unfoldable mutual
    pub IsScoredNode : Node F64 → Type 0
    IsScoredNode (Node.au u) = IsScored floats u
    IsScoredNode (Node.block b children) = AreScored children

    pub AreScored : Nodes F64 → Type 0
    AreScored Nodes.nil = Unit
    AreScored (Nodes.cons node nodes) = IsScoredNode node × AreScored nodes

abbrev head : String → List LangString → List LangString → List String → BlockHead
head id t d o = record { id = id; title = t; description = d; objective_ids = o }

module _ {F64 : Type 0} (entities : Entities) (floats : Floats F64) (pieces : String → List Piece)
    (delivers : Delivers entities pieces) where
  abbrev pub Reads : ℕ → BlockHead → Nodes F64 → List Event → Read (Node F64) → Type 0
  Reads n b children events r =
      (fuel : ℕ) → n ≤ fuel → parse_block_parts entities floats fuel b children events ≡ r

  module _ (n : ℕ) (rest : List Event) (r : Read (Node F64)) (id : String) where
    read_title :
        (t d : List LangString)
        → Reads n (head id t d []) Nodes.nil rest r
        → Reads
            (n + 2 + length t)
            (head id [] d [])
            Nodes.nil
            (write_langstrings pieces "title" t rest)
            r
    unfolding parse_block_parts write_langstrings
    read_title [] d k fuel h = k fuel (omega (arith, h))
    read_title (s ∷ ss) d k zero h = absurd (omega (arith, h))
    read_title (s ∷ ss) d k (suc fuel) h =
        rw
          (parse_langstrings-write entities pieces delivers fuel "title" [] (s ∷ ss) rest
            (omega (arith, h)))
          (k fuel (omega (arith, h)))

    read_description :
        (t d : List LangString)
        → Reads n (head id t d []) Nodes.nil rest r
        → Reads
            (n + 2 + length d)
            (head id t [] [])
            Nodes.nil
            (write_langstrings pieces "description" d rest)
            r
    unfolding parse_block_parts write_langstrings
    read_description t [] k fuel h = k fuel (omega (arith, h))
    read_description t (s ∷ ss) k zero h = absurd (omega (arith, h))
    read_description t (s ∷ ss) k (suc fuel) h =
        rw
          (parse_langstrings-write entities pieces delivers fuel "description" [] (s ∷ ss) rest
            (omega (arith, h)))
          (k fuel (omega (arith, h)))

    read_objectives :
        (t d : List LangString) (o : List String)
        → Reads n (head id t d o) Nodes.nil rest r
        → Reads (suc n) (head id t d []) Nodes.nil (write_objective_refs o rest) r
    unfolding parse_block_parts write_objective_refs
    read_objectives t d [] k fuel h = k fuel (omega (arith, h))
    read_objectives t d (id' ∷ ids) k zero h = absurd (omega (arith, h))
    read_objectives t d (id' ∷ ids) k (suc fuel) h =
        rw (parse_objective_refs-write [] (id' ∷ ids) rest) (k fuel (omega (arith, h)))

  pub read_end :
      (b : BlockHead) (children : Nodes F64) (rest : List Event)
      → Reads 1 b children (Event.end_tag "block" ∷ rest) (ok (Node.block b children, rest))
  unfolding parse_block_parts
  read_end b children rest zero h = absurd (omega (arith, h))
  read_end b children rest (suc fuel) h = refl

module _ {F64 : Type 0} (entities : Entities) (floats : Floats F64) (pieces : String → List Piece)
    (delivers : Delivers entities pieces) (prints : PrintsFractions floats) where
  -- One unit after a node's own reading: the loop goes on with the node at the end of its children.
  read_au :
      (n : ℕ) (u : AssignableUnit F64) (b : BlockHead) (acc : Nodes F64) (rest : List Event)
      (r : Read (Node F64))
      → IsScored floats u
      → Reads entities floats pieces delivers n b (push_node acc (Node.au u)) rest r
      → Reads entities floats pieces delivers
          (suc (au_fuel u) + n)
          b
          acc
          (write_au floats pieces u rest)
          r
  unfolding parse_block_parts write_au
  read_au n u b acc rest r scored k zero h = absurd (omega (arith, h))
  read_au n u b acc rest r scored k (suc fuel) h =
      rw
        (parse_au-write entities floats pieces delivers prints u rest fuel scored
          (omega (arith, h)))
        (k fuel (omega (arith, h)))

  -- The parts of a block, given that its children are read.
  pub read_block :
      (b : BlockHead) (children : Nodes F64) (rest : List Event)
      → Reads entities floats pieces delivers
          (1 + nodes_fuel children)
          b
          Nodes.nil
          (write_nodes floats pieces children (Event.end_tag "block" ∷ rest))
          (ok (Node.block b children, rest))
      → Reads entities floats pieces delivers
          (node_fuel (Node.block b children))
          (empty_block b.id)
          Nodes.nil
          (write_langstrings pieces "title" b.title (
            write_langstrings pieces "description" b.description (
              write_objective_refs b.objective_ids
                (write_nodes floats pieces children (Event.end_tag "block" ∷ rest)))))
          (ok (Node.block b children, rest))
  unfolding node_fuel
  read_block b children rest nodes fuel h =
      let objectives =
        read_objectives entities floats pieces delivers (1 + nodes_fuel children) _ _ b.id b.title
          b.description b.objective_ids nodes in
      let description =
        read_description entities floats pieces delivers (suc (1 + nodes_fuel children)) _ _ b.id
          b.title b.description objectives in
      read_title entities floats pieces delivers
        (suc (1 + nodes_fuel children) + 2 + length b.description) _ _ b.id b.title [] description
        fuel (omega (arith, h))

  -- A nested block, given that its children are read.
  read_nested :
      (n : ℕ) (b' : BlockHead) (children : Nodes F64) (b : BlockHead) (acc : Nodes F64)
      (rest : List Event) (r : Read (Node F64))
      → Reads entities floats pieces delivers
          (1 + nodes_fuel children)
          b'
          Nodes.nil
          (write_nodes floats pieces children (Event.end_tag "block" ∷ rest))
          (ok (Node.block b' children, rest))
      → Reads entities floats pieces delivers n b (push_node acc (Node.block b' children)) rest r
      → Reads entities floats pieces delivers
          (suc (node_fuel (Node.block b' children)) + n)
          b
          acc
          (write_node floats pieces (Node.block b' children) rest)
          r
  unfolding parse_block_parts write_node
  read_nested n b' children b acc rest r nodes k zero h = absurd (omega (arith, h))
  read_nested n b' children b acc rest r nodes k (suc fuel) h =
      rw (read_block b' children rest nodes fuel (omega (arith, h))) (k fuel (omega (arith, h)))

  mutual
    unfolding write_nodes AreScored nodes_fuel

    read_node :
        (n : ℕ) (node : Node F64) (b : BlockHead) (acc : Nodes F64) (rest : List Event)
        (r : Read (Node F64))
        → IsScoredNode floats node
        → Reads entities floats pieces delivers n b (push_node acc node) rest r
        → Reads entities floats pieces delivers
            (suc (node_fuel node) + n)
            b
            acc
            (write_node floats pieces node rest)
            r
    read_node n (Node.au u) b acc rest r scored k = read_au n u b acc rest r scored k
    read_node n (Node.block b' children) b acc rest r scored k =
        read_nested n b' children b acc rest r
          (read_nodes 1 children b' Nodes.nil (Event.end_tag "block" ∷ rest)
            (ok (Node.block b' children, rest)) scored
            (read_end entities floats pieces delivers b' children rest))
          k

    pub read_nodes :
        (n : ℕ) (nodes : Nodes F64) (b : BlockHead) (acc : Nodes F64) (rest : List Event)
        (r : Read (Node F64))
        → AreScored floats nodes
        → Reads entities floats pieces delivers n b (append_nodes acc nodes) rest r
        → Reads entities floats pieces delivers
            (n + nodes_fuel nodes)
            b
            acc
            (write_nodes floats pieces nodes rest)
            r
    read_nodes n Nodes.nil b acc rest r scored k fuel h =
        let e = append_nodes-nil acc in let k' = rw e at k in k' fuel (omega (arith, h))
    read_nodes n (Nodes.cons node nodes) b acc rest r (scored, more) k fuel h =
        let e = append_nodes-push_node acc node nodes in
        read_node (n + nodes_fuel nodes) node b acc (write_nodes floats pieces nodes rest) r scored
          (read_nodes n nodes b (push_node acc node) rest r more (λ f g. rw e (k f g))) fuel
          (omega (arith, h))
