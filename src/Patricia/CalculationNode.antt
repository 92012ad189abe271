-- ===== src/Patricia/CalculationNode.antt =====
-- A node whose hash is still to be computed, with an edge whose length is not certain
-- (starkware/starkware_utils/commitment_tree/patricia_tree/virtual_calculation_node.py).
use pip_cairo_lang.Prelude.{eqb_zero, ℕ, suc, ◌+◌, ◌^◌, Bool, true, false, not, ◌==◌, if◌then◌else◌}
use pip_cairo_lang.Result.{Result, ok, ◌>>=◌, ◌>>◌, assert, combine_height, edge_children}
use pip_cairo_lang.Patricia.Nodes.{
  LeafFact, NodeFact, empty_node_hash, verify_path_value, Storage, read_node_fact,
}
use pip_cairo_lang.Patricia.Calculation.{HashCalculation, constant, leaf_fact, binary, edge}
use pip_cairo_lang.Patricia.VirtualNode.{VirtualPatriciaNode}

pub record VirtualCalculationNode : Type 0 where
  pub bottom_calculation : HashCalculation
  pub path : ℕ
  pub length : ℕ
  pub height : ℕ

-- the class called
unfoldable pub calculation_node : HashCalculation → ℕ → ℕ → ℕ → Result VirtualCalculationNode
calculation_node bottom path length height = do
  verify_path_value path length
  ok (record { bottom_calculation = bottom; path = path; length = length; height = height })

-- A node without an edge is legal, so these give it.
abbrev pub without_edge : HashCalculation → ℕ → VirtualCalculationNode
without_edge bottom height = record {
  bottom_calculation = bottom;
  path = 0;
  length = 0;
  height = height;
}

abbrev pub empty_node : ℕ → VirtualCalculationNode
empty_node height = without_edge (constant empty_node_hash) height

unfoldable pub create_from_node : VirtualPatriciaNode → Result VirtualCalculationNode
create_from_node node =
    if node.bottom_node == empty_node_hash
    then ok (empty_node node.height)
    else calculation_node (constant node.bottom_node) node.path node.length node.height

abbrev pub create_from_fact : LeafFact → VirtualCalculationNode
create_from_fact fact = without_edge (leaf_fact fact) 0

-- `is_empty`, of the bottom calculation
abbrev pub has_no_value : HashCalculation → Bool
has_no_value (constant value) = value == empty_node_hash
has_no_value (leaf_fact fact) = fact.is_empty
has_no_value _ = false

-- `_commit`
abbrev pub commit : VirtualCalculationNode → HashCalculation
commit c =
    if eqb_zero c.length then c.bottom_calculation else edge c.bottom_calculation c.path c.length

abbrev pub decommit_fact : VirtualCalculationNode → NodeFact → Result VirtualCalculationNode
decommit_fact c (NodeFact.edge bottom path length) =
    calculation_node (constant bottom) path length c.height
decommit_fact c _ = ok c

-- the bottom calculation, where it may be an edge
abbrev pub decommit_bottom :
    Storage → VirtualCalculationNode → HashCalculation → Result VirtualCalculationNode
decommit_bottom storage c (edge bottom path length) = calculation_node bottom path length c.height
decommit_bottom storage c (constant value) = do
  bottom_fact ← read_node_fact storage value
  decommit_fact c bottom_fact
decommit_bottom storage c _ = ok c

-- `_decommit`
unfoldable pub decommit : Storage → VirtualCalculationNode → Result VirtualCalculationNode
decommit storage c =
    if eqb_zero c.height
    then ok c
    else (if has_no_value c.bottom_calculation
        then ok c
        else (if eqb_zero c.length then decommit_bottom storage c c.bottom_calculation else ok c))

-- `_combine_to_binary_node`
abbrev pub combine_to_binary_node :
    VirtualCalculationNode → VirtualCalculationNode → VirtualCalculationNode
combine_to_binary_node left right =
    without_edge (binary (commit left) (commit right)) (suc right.height)

-- `parent_path` of a child on the right, or on the left
abbrev pub parent_path : Bool → VirtualCalculationNode → ℕ
parent_path true child = child.path + 2 ^ child.length
parent_path false child = child.path

-- `_combine_to_virtual_edge_node`
unfoldable pub combine_to_virtual_edge_node :
    Storage → VirtualCalculationNode → VirtualCalculationNode → Result VirtualCalculationNode
combine_to_virtual_edge_node storage left right = do
  let left_empty = has_no_value left.bottom_calculation
  let right_empty = has_no_value right.bottom_calculation
  assert (if left_empty then not right_empty else right_empty) edge_children
  child ← decommit storage (if left_empty then right else left)
  calculation_node child.bottom_calculation (parent_path left_empty child) (suc child.length)
      (suc child.height)

unfoldable pub combine :
    Storage → VirtualCalculationNode → VirtualCalculationNode → Result VirtualCalculationNode
combine storage left right = do
  let left_empty = has_no_value left.bottom_calculation
  let right_empty = has_no_value right.bottom_calculation
  assert (right.height == left.height) combine_height
  if left_empty
      then (if right_empty
          then ok (empty_node (suc right.height))
          else combine_to_virtual_edge_node storage left right)
      else (if right_empty
          then combine_to_virtual_edge_node storage left right
          else ok (combine_to_binary_node left right))
