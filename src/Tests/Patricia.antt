-- ===== src/Tests/Patricia.antt =====
-- starkware/starkware_utils/commitment_tree/patricia_tree at small numbers.
use pip_cairo_lang.Prelude.{
  ◌∷◌, ◌^◌, ◌<◌, List, ℕ, suc, ◌+◌, ◌*◌, ◌≡◌, refl, sym, ap, ◌∙◌, arith, Bool, false, ◌==◌, ==_iff,
  Bool-cases, inl, inr, if◌then◌else◌, Option, none, some, [],
}
use pip_cairo_lang.Result.{ok}
use pip_cairo_lang.Patricia.Nodes.{LeafFact, NodeFact, HashFunction, Storage, NodeFactDict}
use pip_cairo_lang.Patricia.VirtualNode.{VirtualPatriciaNode, get_children}
use pip_cairo_lang.Patricia.Calculation.{constant, leaf_fact}
use pip_cairo_lang.Patricia.CalculationNode.{VirtualCalculationNode, empty_node, commit, combine}
use pip_cairo_lang.Patricia.Root.{commit_root}
use pip_cairo_lang.Patricia.Serial.{serialize, deserialize}
use pip_cairo_lang.Patricia.Serial.RoundTrip.{IsStorable, deserialize-fact}
use pip_cairo_lang.Patricia.UpdateTree.{UpdateTree, Modifications, build_update_tree}
use pip_cairo_lang.Patricia.UpdateTree.Layers.{IsBelow}
use pip_cairo_lang.Patricia.UpdateTree.Dict.{modified, AreBelow}
use pip_cairo_lang.Patricia.UpdateTree.Leaves.{leaf_of, build_update_tree-leaves}
use pip_cairo_lang.Patricia.Utils.{hash_node, next_node, get_children as reference_children}
use pip_cairo_lang.Patricia.Canonic.{value, triplet, IsEdge, IsStorage, IsProper}
use pip_cairo_lang.Patricia.Decommit.{node}
use pip_cairo_lang.Patricia.Triplets.{IsNonzero}
use pip_cairo_lang.Patricia.Combine.{combine-next_node}
use pip_cairo_lang.Patricia.Commitment.{IsLegal, IsNoted, commit_root-hash_node}
use pip_cairo_lang.Patricia.VirtualNode.Parts.{vnode}
use pip_cairo_lang.Patricia.Children.{as_triplet, IsVirtual, get_children-Agree}

abbrev small_hash : HashFunction
small_hash a b = suc (a + 2 * b)

small_hash-IsNonzero : IsNonzero small_hash
small_hash-IsNonzero a b h = absurd (omega arith)

-- one edge, of path 01 to the node 5, under its hash
abbrev one_edge : Storage
one_edge k = if k == 10 then some (NodeFact.edge 5 1 2) else none

abbrev edge_parts : Option NodeFact → ℕ × ℕ × ℕ
edge_parts (some (NodeFact.edge b p l)) = (b, p, l)
edge_parts _ = (0, 0, 0)

one_edge-IsEdge : IsEdge small_hash one_edge 10 5 1 2
one_edge-IsEdge = record {
  key = refl;
  nonzero = λ z. absurd (omega arith);
  positive = omega arith;
  legal = omega arith;
  bottom = λ z. absurd (omega arith);
  single = refl;
}

one_edge-IsStorage : IsStorage small_hash one_edge
one_edge-IsStorage = record { edges = edges }
  where
    edges :
        (k b p l : ℕ) → one_edge k ≡ some (NodeFact.edge b p l) → IsEdge small_hash one_edge k b p l
    edges k b p l e = elim (Bool-cases (k == 10)) [
      | inl t ↦
          let same : some (NodeFact.edge 5 1 2) ≡ some (NodeFact.edge b p l) =
            ap (λ (u : Bool). if u then some (NodeFact.edge 5 1 2) else none) (sym t) ∙ e in
          rw
            (
              (==_iff k 10).0 t,
              ← ap (λ o. (edge_parts o).0) same,
              ← ap (λ o. (edge_parts o).1) same,
              ← ap (λ o. (edge_parts o).2) same,
            )
            one_edge-IsEdge
      | inr f ↦
          absurd
            (cc (ap (λ (u : Bool). if u then some (NodeFact.edge 5 1 2) else none) (sym f) ∙ e))
    ]

-- a committed edge, two steps above the leaves
abbrev old_node : VirtualCalculationNode
old_node = node (constant 10) 0 0 2

old_node-IsProper : IsProper small_hash one_edge old_node
old_node-IsProper = record {
  legal = omega arith;
  solid = tt;
  edged = λ z. absurd (z refl);
  leaf = λ z. absurd (omega arith);
  known = λ z y x. (NodeFact.edge 5 1 2, refl);
}

nothing-IsProper : IsProper small_hash one_edge (empty_node 2)
nothing-IsProper = record {
  legal = omega arith;
  solid = tt;
  edged = λ z. absurd (z refl);
  leaf = λ z. absurd (omega arith);
  known = λ z y x. absurd (x refl);
}

combine-next_node_example :
    (c : VirtualCalculationNode) × (combine one_edge old_node (empty_node 2) ≡ ok c)
    × IsProper small_hash one_edge c
    × (c.height ≡ 3)
    × (triplet small_hash one_edge c
        ≡ next_node small_hash
            (triplet small_hash one_edge old_node)
            (triplet small_hash one_edge (empty_node 2)))
combine-next_node_example =
    combine-next_node small_hash one_edge small_hash-IsNonzero one_edge-IsStorage old_node
      (empty_node 2) old_node-IsProper nothing-IsProper refl

abbrev leaf_5 : LeafFact
leaf_5 = record { leaf_hash = 5; is_empty = false }

-- a new edge to a leaf
abbrev new_node : VirtualCalculationNode
new_node = node (leaf_fact leaf_5) 1 2 2

new_node-IsProper : IsProper small_hash one_edge new_node
new_node-IsProper = record {
  legal = omega arith;
  solid = refl;
  edged = λ z. (refl, λ y. absurd (omega arith));
  leaf = λ z. absurd (omega arith);
  known = λ z y. absurd (omega arith);
}

new_node-IsLegal : IsLegal small_hash (commit new_node)
unfolding IsLegal value
new_node-IsLegal = (tt, omega arith, omega arith, omega arith, omega arith)

nothing-IsNoted : IsNoted small_hash []
unfolding IsNoted
nothing-IsNoted = tt

commit_root-hash_node_example :
    (d' : NodeFactDict) × (commit_root small_hash new_node []
      ≡ (ok (hash_node small_hash (triplet small_hash one_edge new_node)), d'))
    × IsNoted small_hash d'
commit_root-hash_node_example =
    commit_root-hash_node small_hash one_edge new_node [] one_edge-IsStorage new_node-IsProper
      new_node-IsLegal nothing-IsNoted

-- the same edge, read from the storage
abbrev read_node : VirtualPatriciaNode
read_node = vnode 10 0 0 2

read_node-IsVirtual : IsVirtual small_hash one_edge read_node
read_node-IsVirtual = record {
  legal = omega arith;
  edged = λ z. absurd (z refl);
  known = λ z y. (NodeFact.edge 5 1 2, refl, cc);
}

get_children-Agree_example :
    (l : VirtualPatriciaNode) × (r : VirtualPatriciaNode) × (get_children one_edge read_node
      ≡ ok (l, r))
    × (reference_children one_edge (as_triplet small_hash one_edge read_node)
        ≡ ok (as_triplet small_hash one_edge l, as_triplet small_hash one_edge r))
get_children-Agree_example =
    get_children-Agree small_hash one_edge read_node one_edge-IsStorage read_node-IsVirtual
      (λ z. absurd (omega arith))

edge-IsStorable : IsStorable (NodeFact.edge 5 1 2)
edge-IsStorable = (omega arith, omega arith, omega arith, omega arith, omega arith)

deserialize-fact_example :
    (bytes : List ℕ) × (serialize (NodeFact.edge 5 1 2) ≡ ok bytes)
    × (deserialize bytes ≡ ok (NodeFact.edge 5 1 2))
deserialize-fact_example = deserialize-fact (NodeFact.edge 5 1 2) edge-IsStorable

-- the leaf 2 is modified twice
abbrev two_leaves : Modifications
two_leaves = (2, leaf_5) ∷ (0, leaf_5) ∷ (2, record { leaf_hash = 7; is_empty = false }) ∷ []

two_leaves-AreBelow : AreBelow (2 ^ 2) two_leaves
unfolding IsBelow
two_leaves-AreBelow = (omega arith, (omega arith, (omega arith, tt)))

build_update_tree-leaves_example :
    (t : UpdateTree) × (build_update_tree 2 two_leaves ≡ ok t)
    × ((i : ℕ) → i < 2 ^ 2 → leaf_of 2 i t ≡ modified i two_leaves)
build_update_tree-leaves_example = build_update_tree-leaves 2 two_leaves two_leaves-AreBelow
